-- ===== src/Index/Postgres/Failures.antt =====
-- Why publishing fails.
use agentenv_skills_hub.Common.{
  ◌≢◌, Bool, ◌≡◌, ◌⊎◌, inl, inr, arith, true, false, none, some, err, Option-cases,
}
use agentenv_skills_hub.Common.Text.{text_eq, Text}
use agentenv_skills_hub.Core.Error.{database, version_digest_conflict, HubError}
use agentenv_skills_hub.Core.Model.{Uuid, Visibility, PublishSkillRequest, SkillVersionRecord}
use agentenv_skills_hub.Index.Tables.{Db, upsert_skill, select_skill_version, insert_skill_version}
use agentenv_skills_hub.Index.Postgres.{Session, insert_version, skill_row, version_row}

-- A call that fails leaves nothing behind: the tables are as they were, with what other sessions
-- may have committed.
pub insert_version-err :
    (session : Session) (namespace : Text) (visibility : Visibility) (published_by : Text)
    (request : PublishSkillRequest) (e : HubError) (before after : Db)
    → insert_version session namespace visibility published_by request before ≡ (err e, after)
    → (after ≡ before) ⊎ (after ≡ session.others before)
unfolding insert_version
insert_version-err session namespace visibility published_by request e before after h = ground arith

unfoldable pub is_database : HubError → Bool
is_database (database message) = true
is_database _ = false

-- Why a call fails, where no other session commits in between.
module _ (session : Session) (namespace : Text) (visibility : Visibility) (published_by : Text)
    (request : PublishSkillRequest) (e : HubError) (before after : Db)
    (h : insert_version session namespace visibility published_by request before
      ≡ (err e, after)) where
  pub err_of_no_skill :
      upsert_skill (skill_row session namespace visibility request) before ≡ none
      → is_database e ≡ true
  unfolding insert_version is_database
  err_of_no_skill u = ground arith

  pub err_of_existing :
      (skill_id : Uuid) (db : Db) (kept : SkillVersionRecord)
      → upsert_skill (skill_row session namespace visibility request) before ≡ some (skill_id, db)
      → select_skill_version skill_id request.manifest.version db ≡ some kept
      → (is_database e ≡ true)
        ⊎ ((e ≡ version_digest_conflict namespace request.manifest.name request.manifest.version)
            × (text_eq kept.digest request.artifact.digest ≡ false))
  unfolding insert_version is_database
  err_of_existing skill_id db kept u s = ground arith

  pub err_of_new :
      (skill_id : Uuid) (db : Db)
      → upsert_skill (skill_row session namespace visibility request) before ≡ some (skill_id, db)
      → select_skill_version skill_id request.manifest.version db ≡ none
      → ((raced : Db)
          → insert_skill_version
              (version_row session skill_id published_by request)
              (session.others db)
            ≢ some (false, raced))
      → is_database e ≡ true
  unfolding insert_version is_database
  err_of_new skill_id db u s alone =
      elim (Option-cases (
        insert_skill_version (version_row session skill_id published_by request)
          (session.others db))) [
            | inl i ↦ ground arith
            | inr ((true, db'), i) ↦ ground arith
            | inr ((false, db'), i) ↦ absurd (alone db' i)
          ]
