-- ===== src/Tests/Index.antt =====
-- The theorems about hub-index at concrete tables.
use agentenv_skills_hub.Index.Json.{manifest_value, get_field, get_text}
use agentenv_skills_hub.Index.Queries.{
  compare_versions, is_listed, join, hit_cmp, hit, compatibility_index,
}
use agentenv_skills_hub.Common.Order.Laws.{text_cmp-IsOrder}
use agentenv_skills_hub.Core.Error.{database}
use agentenv_skills_hub.Common.Text.{text}
use agentenv_skills_hub.Index.Tables.{
  update_latest, insert_skill_version, select_skill_version, upsert_skill, Db,
}
use agentenv_skills_hub.Index.Postgres.Lookup.{lookup_version}
use agentenv_skills_hub.Index.Postgres.WellFormed.{
  insert_version-IsWellFormed, IsOrderly, IsWellFormed,
}
use agentenv_skills_hub.Index.Queries.Laws.{
  compatibility_index-InOrder, InOrder, listed, HasVersion,
}
use agentenv_skills_hub.Common.Sort.{sort}
use agentenv_skills_hub.Tests.Fixtures.{request, crates, core_code}
use agentenv_skills_hub.Common.{keep, map, find, [], ◌∷◌, none, some, ok, err, ◌≡◌, refl, All}
use agentenv_skills_hub.Index.Postgres.{
  visibility_text, keep_existing, insert_new, version_row, insert_in_tx, new_record, skill_row,
  insert_version, Session, insert_row,
}
use agentenv_skills_hub.Core.Model.{CompatibilityIndex, SkillVersionRecord, public}

-- Nothing fails, and nobody else commits.
abbrev pub calm_session : Session
calm_session = record {
  now = 7;
  skill_id = 1;
  version_id = 2;
  fault = λ s. none;
  constraint = text "duplicate key value";
  row_not_found = text "no rows";
  others = λ d. d;
}

-- The insert of a version row fails.
abbrev failing_session : Session
failing_session = record calm_session {
  fault = λ s. elim s [ insert_row ↦ some (text "connection closed") | _ ↦ none ];
}

abbrev pub empty_db : Db
empty_db = record { skills = []; skill_versions = [] }

pub empty_db-IsWellFormed : IsWellFormed empty_db
empty_db-IsWellFormed = record {
  skill_ids = tt;
  skill_names = tt;
  version_ids = tt;
  version_keys = tt;
  references = tt;
}

calm_session-IsOrderly : IsOrderly calm_session
calm_session-IsOrderly = record { keys = λ d w. w; skills = λ d k h. h }

abbrev pub filled_db : Db
filled_db = record {
  skills = skill_row calm_session (text "acme") public request ∷ [];
  skill_versions = version_row calm_session 1 (text "ann") request ∷ [];
}

abbrev pub first_record : SkillVersionRecord
first_record = new_record calm_session (text "acme") request

-- Unfolds the code of hub-index and what it calls.
unfoldable pub index_code : Unit {0}
unfolding core_code find keep insert_version insert_in_tx insert_new keep_existing upsert_skill
    select_skill_version insert_skill_version update_latest lookup_version get_text get_field
    manifest_value visibility_text compatibility_index join is_listed sort hit_cmp compare_versions
index_code = tt

insert_run :
    insert_version calm_session (text "acme") public (text "ann") request empty_db
    ≡ (ok first_record, filled_db)
unfolding index_code
insert_run = refl

failing_run :
    insert_version failing_session (text "acme") public (text "ann") request empty_db
    ≡ (err (database (text "connection closed")), empty_db)
unfolding index_code
failing_run = refl

pub lookup_run :
    lookup_version (text "acme") (text "code-review") (text "1.2.0") filled_db ≡ some first_record
unfolding index_code
lookup_run = refl

pub filled_db-IsWellFormed : IsWellFormed filled_db
filled_db-IsWellFormed =
    let w =
      insert_version-IsWellFormed calm_session (text "acme") public (text "ann") request empty_db
        calm_session-IsOrderly empty_db-IsWellFormed in
    rw insert_run at w

abbrev pub first_index : CompatibilityIndex
first_index = record {
  skills =
      record {
        name = text "code-review";
        version = text "1.2.0";
        description = some (text "Review code");
        registry = text "hub";
        digest = some request.artifact.digest;
        signature_ed25519 = some (text "aa");
        public_key_ed25519 = some (text "bb");
      }
      ∷ [];
}

pub index_run :
    compatibility_index crates (λ rows. rows) calm_session filled_db (text "hub") ≡ ok first_index
unfolding index_code
index_run = refl

listed_versions : All (HasVersion crates) (map (hit (text "hub")) (listed filled_db))
unfolding index_code
listed_versions = ((text "1.2.0", refl), tt)

compatibility_index-InOrder_example : InOrder crates first_index.skills
compatibility_index-InOrder_example =
    compatibility_index-InOrder crates (λ rows. rows) calm_session filled_db (text "hub")
      first_index text_cmp-IsOrder listed_versions index_run
