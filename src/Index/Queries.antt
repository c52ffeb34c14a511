-- ===== src/Index/Queries.antt =====
-- The read queries of crates/hub-index/src/postgres.rs. `arrange` is the server's ORDER BY: the rows
-- in the order of its collation, and in any order where that leaves a choice.
pub mod Laws
pub mod Public
pub mod Namespace
pub mod Listed
pub mod Unseen
pub mod Served
pub mod Readable
pub mod Visible
pub mod Once
pub mod Listing
use agentenv_skills_hub.Core.Error.{skill_version_not_found, HubResult}
use agentenv_skills_hub.Common.Sort.{sort}
use agentenv_skills_hub.Index.Json.{get_text}
use Prim.Native.Nat.{Ordering}
use agentenv_skills_hub.Core.Model.{CompatibilityIndex, SkillVersionRecord, CompatibilitySkillHit}
use agentenv_skills_hub.Index.Tables.{joined_record, SkillVersionRow, Db, SkillRow}
use agentenv_skills_hub.Core.Crates.{Crates}
use agentenv_skills_hub.Common.Text.{text, text_eq, Text}
use agentenv_skills_hub.Common.Order.{is_le, then_with, text_cmp}
use agentenv_skills_hub.Common.{
  Bool, ◌&&◌, not, Option, none, some, List, [], ◌∷◌, ◌++◌, map, keep, ok, err, ok_or, is_some,
  ◌>>=◌, ◌>>◌, ◌==◌, Result,
}
use agentenv_skills_hub.Index.Postgres.{
  select_index, select_public, skill_row, checked, Statement, Session,
}

abbrev pub Row : Type 0
Row = SkillRow × SkillVersionRow

-- skills s JOIN skill_versions sv ON sv.skill_id = s.id
abbrev pub with_skill : SkillRow → List SkillVersionRow → List Row
with_skill s [] = []
with_skill s (sv ∷ svs) = (s, sv) ∷ with_skill s svs

unfoldable pub join : List SkillRow → List SkillVersionRow → List Row
unfolding keep
join [] versions = []
join (s ∷ skills) versions =
    with_skill s (keep (λ sv. sv.skill_id == s.id) versions) ++ join skills versions

-- s.visibility = 'public' AND sv.yanked_at IS NULL
unfoldable pub is_listed : Row → Bool
is_listed (s, sv) = text_eq s.visibility (text "public") && not (is_some sv.yanked_at)

abbrev pub hit : Text → Row → CompatibilitySkillHit
hit registry (s, sv) = record {
  name = s.name;
  version = sv.version;
  description = get_text (text "description") sv.manifest_json;
  registry = registry;
  digest = some sv.digest;
  signature_ed25519 = sv.signature_ed25519;
  public_key_ed25519 = sv.public_key_ed25519;
}

abbrev parsed_cmp :
    (crates : Crates)
    → Text
    → Text
    → Result Text crates.Version
    → Result Text crates.Version
    → Ordering
parsed_cmp crates left right (ok l) (ok r) = crates.version_cmp l r
parsed_cmp crates left right (ok l) (err e) = text_cmp left right
parsed_cmp crates left right (err e) r = text_cmp left right

unfoldable pub compare_versions : Crates → Text → Text → Ordering
compare_versions crates left right =
    parsed_cmp crates left right (crates.parse_version left) (crates.parse_version right)

-- The comparator of the two `sort_by` calls.
unfoldable pub hit_cmp : Crates → CompatibilitySkillHit → CompatibilitySkillHit → Ordering
unfolding compare_versions
hit_cmp crates left right =
    then_with (text_cmp left.name right.name) (compare_versions crates left.version right.version)

module _ (crates : Crates) (arrange : List Row → List Row) (session : Session) (db : Db) where
  unfoldable pub compatibility_index : Text → HubResult CompatibilityIndex
  compatibility_index registry = do
    checked (session.fault select_index)
    ok (record {
      skills =
          sort (λ a b. is_le (hit_cmp crates a b))
            (map (hit registry) (arrange (keep is_listed (join db.skills db.skill_versions))));
    })

  unfoldable pub compatibility_index_for_namespace : Text → HubResult CompatibilityIndex
  compatibility_index_for_namespace namespace = do
    checked (session.fault select_index)
    ok (record {
      skills =
          sort (λ a b. is_le (hit_cmp crates a b))
            (map (hit namespace) (
              arrange (
                keep (λ r. text_eq r.0.namespace namespace && is_listed r)
                  (join db.skills db.skill_versions))));
    })

  abbrev pub first_record : List Row → Option SkillVersionRecord
  first_record [] = none
  first_record ((s, sv) ∷ rows) = some (joined_record s sv)

  unfoldable pub public_version_by_name : Text → Text → HubResult SkillVersionRecord
  public_version_by_name name version = do
    checked (session.fault select_public)
    ok_or (skill_version_not_found (text "*") name version) (
        first_record (
          arrange (
            keep (λ r. is_listed r && (text_eq r.0.name name && text_eq r.1.version version))
              (join db.skills db.skill_versions))))
