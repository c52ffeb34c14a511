-- ===== src/Index/Tables.antt =====
-- The tables of migrations/0001_init.sql that the repository uses, and the statements of
-- crates/hub-index/src/postgres.rs on them. A table is a list of its rows.
use agentenv_skills_hub.Common.{
  ℕ, Bool, true, false, ◌&&◌, Option, none, some, List, ◌∷◌, any, find, keep, map, is_some, ◌==◌,
  if◌then◌else◌, length,
}
use agentenv_skills_hub.Common.Text.{Text, text, text_eq}
use agentenv_skills_hub.Core.Model.{Uuid, OffsetDateTime, Value, SkillVersionRecord}
use agentenv_skills_hub.Index.Json.{get_text}

pub record SkillRow : Type 0 where
  pub id : Uuid
  pub namespace : Text
  pub name : Text
  pub description : Option Text
  pub latest_version : Option Text
  pub visibility : Text
  pub created_at : OffsetDateTime
  pub updated_at : OffsetDateTime

pub record SkillVersionRow : Type 0 where
  pub id : Uuid
  pub skill_id : Uuid
  pub version : Text
  pub digest : Text
  pub manifest_json : Value
  pub artifact_url : Text
  pub artifact_media_type : Text
  pub signature_ed25519 : Option Text
  pub public_key_ed25519 : Option Text
  pub sigstore_bundle_json : Option Value
  pub yanked_at : Option OffsetDateTime
  pub yank_reason : Option Text
  pub published_by : Text
  pub created_at : OffsetDateTime

pub record Db : Type 0 where
  pub skills : List SkillRow
  pub skill_versions : List SkillVersionRow

-- The tests of the WHERE clauses and of the UNIQUE constraints.
abbrev pub is_skill : Text → Text → SkillRow → Bool
is_skill namespace name s = text_eq s.namespace namespace && text_eq s.name name

abbrev pub is_version : Uuid → Text → SkillVersionRow → Bool
is_version skill_id version sv = sv.skill_id == skill_id && text_eq sv.version version

-- One row of `skill_versions sv JOIN skills s`, as the record that the queries select.
abbrev pub joined_record : SkillRow → SkillVersionRow → SkillVersionRecord
joined_record s sv = record {
  id = sv.id;
  namespace = s.namespace;
  name = s.name;
  version = sv.version;
  description = get_text (text "description") sv.manifest_json;
  digest = sv.digest;
  artifact_url = sv.artifact_url;
  artifact_media_type = sv.artifact_media_type;
  signature_ed25519 = sv.signature_ed25519;
  public_key_ed25519 = sv.public_key_ed25519;
  yanked_at = sv.yanked_at;
  yank_reason = sv.yank_reason;
  created_at = sv.created_at;
}

-- INSERT INTO skills … ON CONFLICT (namespace, name) DO UPDATE SET updated_at = skills.updated_at
-- RETURNING id. The update writes the value that is there. A taken `id` violates the primary key.
abbrev pub upserted : SkillRow → Option SkillRow → Db → Option (Uuid × Db)
upserted row (some s) db = some (s.id, db)
upserted row none db =
    if any (λ s. s.id == row.id) db.skills
    then none
    else some (row.id, record db { skills = row ∷ db.skills })

unfoldable pub upsert_skill : SkillRow → Db → Option (Uuid × Db)
unfolding find any
upsert_skill row db = upserted row (find (is_skill row.namespace row.name) db.skills) db

-- SELECT_SKILL_VERSION
abbrev pub join_row : SkillVersionRow → Option SkillRow → Option SkillVersionRecord
join_row sv none = none
join_row sv (some s) = some (joined_record s sv)

abbrev pub join_skill : Db → Option SkillVersionRow → Option SkillVersionRecord
join_skill db none = none
join_skill db (some sv) = join_row sv (find (λ s. s.id == sv.skill_id) db.skills)

unfoldable pub select_skill_version : Uuid → Text → Db → Option SkillVersionRecord
unfolding find
select_skill_version skill_id version db =
    join_skill db (find (is_version skill_id version) db.skill_versions)

-- INSERT INTO skill_versions … ON CONFLICT (skill_id, version) DO NOTHING; the result says whether
-- a row was written. A taken `id` violates the primary key.
unfoldable pub insert_skill_version : SkillVersionRow → Db → Option (Bool × Db)
unfolding find any
insert_skill_version row db =
    if is_some (find (is_version row.skill_id row.version) db.skill_versions)
    then some (false, db)
    else if any (λ sv. sv.id == row.id) db.skill_versions
    then none
    else some (true, record db { skill_versions = row ∷ db.skill_versions })

-- UPDATE skills SET latest_version = $1, updated_at = $2 WHERE id = $3
unfoldable pub update_latest : Text → OffsetDateTime → Uuid → Db → Db
update_latest version now skill_id db = record db {
  skills =
      map
        (λ s.
          if s.id == skill_id
          then record s { latest_version = some version; updated_at = now }
          else s)
        db.skills;
}

-- sv.skill_id = s.id AND s.namespace = … AND s.name = … AND sv.version = …
unfoldable pub is_target : Text → Text → Text → List SkillRow → SkillVersionRow → Bool
unfolding any
is_target namespace name version skills sv =
    any (λ s. s.id == sv.skill_id && is_skill namespace name s) skills && text_eq sv.version version

-- UPDATE skill_versions sv SET yanked_at = …, yank_reason = … FROM skills s WHERE …, with the number
-- of rows written.
unfoldable pub set_yank : Option OffsetDateTime → Option Text → Text → Text → Text → Db → ℕ × Db
unfolding is_target keep
set_yank at reason namespace name version db = (
  length (keep (is_target namespace name version db.skills) db.skill_versions),
  record db {
    skill_versions =
        map
          (λ sv.
            if is_target namespace name version db.skills sv
            then record sv { yanked_at = at; yank_reason = reason }
            else sv)
          db.skill_versions;
  },
)
