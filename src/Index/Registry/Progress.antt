-- ===== src/Index/Registry/Progress.antt =====
-- Publishing a new version where the database works.
use agentenv_skills_hub.Index.Postgres.Upserts.{upsert_skill-Upserted}
use agentenv_skills_hub.Index.Postgres.{
  commit, set_latest, insert_row, lookup, upsert, begin, version_row, skill_row, new_record,
  insert_version, Statement, Session,
}
use agentenv_skills_hub.Index.Postgres.Roundtrip.{Upserted-IsPlaced}
use agentenv_skills_hub.Index.Registry.Publish.{versioned_of_row, Upserted-view, placed_entry}
use agentenv_skills_hub.Index.Postgres.WellFormed.{Upserted-IsWellFormed, IsWellFormed}
use agentenv_skills_hub.Core.Model.{Uuid, PublishSkillRequest, Visibility}
use agentenv_skills_hub.Index.Tables.{
  SkillVersionRow, select_skill_version, is_skill, is_version, insert_skill_version, upsert_skill,
  Db,
}
use agentenv_skills_hub.Common.Text.{Text}
use agentenv_skills_hub.Common.{
  ◌∷◌, find, ◌==◌, any, ◌≡◌, refl, arith, ap, sym, ◌∙◌, inl, inr, true, false, none, some, ok,
  Option-cases,
}
use agentenv_skills_hub.Index.Registry.{view}

-- No statement fails, and the ids that the call draws are new.
pub record IsCalm (session : Session) (db : Db) : Type 0 where
  pub works : (s : Statement) → session.fault s ≡ none
  pub alone : (d : Db) → session.others d ≡ d
  pub new_skill : any (λ s. s.id == session.skill_id) db.skills ≡ false
  pub new_version : any (λ sv. sv.id == session.version_id) db.skill_versions ≡ false

module _ (session : Session) (namespace : Text) (visibility : Visibility) (published_by : Text)
    (request : PublishSkillRequest) where
  inserted_steps :
      (k : Uuid) (db d d' : Db)
      → upsert_skill (skill_row session namespace visibility request) db ≡ some (k, d)
      → select_skill_version k request.manifest.version d ≡ none
      → insert_skill_version (version_row session k published_by request) (session.others d)
        ≡ some (true, d')
      → ((s : Statement) → session.fault s ≡ none)
      → (insert_version session namespace visibility published_by request db).0
        ≡ ok (new_record session namespace request)
  unfolding insert_version
  inserted_steps k db d d' u s i calm =
      ground
        (arith, calm begin, calm upsert, calm lookup, calm insert_row, calm set_latest, calm commit)

  upserted_row :
      (db : Db)
      → any (λ s. s.id == session.skill_id) db.skills ≡ false
      → (k : Uuid) × (d : Db) × (upsert_skill (skill_row session namespace visibility request) db
          ≡ some (k, d))
        × (d.skill_versions ≡ db.skill_versions)
  unfolding upsert_skill
  upserted_row db unused =
      elim (Option-cases (find (is_skill namespace request.manifest.name) db.skills)) [
        | inl e ↦ (
          session.skill_id,
          record db { skills = skill_row session namespace visibility request ∷ db.skills },
          rw (e, unused) refl,
          refl,
        )
        | inr (s, e) ↦ (s.id, db, rw e refl, refl)
      ]

  written_row :
      (k : Uuid) (d : Db)
      → find (is_version k request.manifest.version) d.skill_versions ≡ none
      → any (λ sv. sv.id == session.version_id) d.skill_versions ≡ false
      → insert_skill_version (version_row session k published_by request) d
        ≡ some (
          true,
          record d {
            skill_versions = version_row session k published_by request ∷ d.skill_versions;
          },
        )
  unfolding insert_skill_version
  written_row k d e unused = rw (e, unused) refl

  -- Publishing a version that is not there succeeds, and returns the record that the request
  -- describes, where no statement fails, the ids that it draws are new and other sessions commit
  -- nothing in between. The tables have their keys.
  pub insert_version-new :
      (db : Db)
      → IsWellFormed db
      → IsCalm session db
      → view db namespace request.manifest.name request.manifest.version ≡ none
      → (insert_version session namespace visibility published_by request db).0
        ≡ ok (new_record session namespace request)
  insert_version-new db w calm missing =
      let (k, d, u, versions) = upserted_row db calm.new_skill in
      let up = upsert_skill-Upserted _ db d k u in
      let wd = (Upserted-IsWellFormed up w).0 in
      let s =
        sym (
          placed_entry session namespace visibility published_by request k d
            (Upserted-IsPlaced w up))
        ∙ Upserted-view w up namespace request.manifest.name request.manifest.version
        ∙ missing in
      let unused =
        ap (any (λ (sv : SkillVersionRow). sv.id == session.version_id)) versions
        ∙ calm.new_version in
      inserted_steps k db d
        (record d {
          skill_versions = version_row session k published_by request ∷ d.skill_versions;
        })
        u s
        (rw (calm.alone d)
          (written_row k d (versioned_of_row k request.manifest.version d wd s) unused))
        calm.works
