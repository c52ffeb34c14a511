-- ===== src/Index/Registry/Race.antt =====
-- Two publishes of one version at the same time.
use agentenv_skills_hub.Common.{
  inr, inl, err, refl, Option-cases, arith, ok, false, Option, some, if◌then◌else◌, find, none, ◌≡◌,
}
use agentenv_skills_hub.Core.Error.{version_digest_conflict, HubResult}
use agentenv_skills_hub.Index.Tables.{
  is_version, is_skill, SkillRow, select_skill_version, insert_skill_version, Db, upsert_skill,
}
use agentenv_skills_hub.Index.Postgres.Lookup.{lookup_version}
use agentenv_skills_hub.Core.Model.{SkillVersionRecord, Uuid, PublishSkillRequest, Visibility}
use agentenv_skills_hub.Common.Text.{text_eq, Text}
use agentenv_skills_hub.Index.Registry.{view}
use agentenv_skills_hub.Index.Postgres.{
  Statement, insert_version, version_row, skill_row, Session, begin, upsert, lookup, insert_row,
  lookup_again, commit,
}

-- The answer for a version that is there already.
abbrev pub settled : Text → PublishSkillRequest → SkillVersionRecord → HubResult SkillVersionRecord
settled namespace request r =
    if text_eq r.digest request.artifact.digest
    then ok r
    else err (version_digest_conflict namespace request.manifest.name request.manifest.version)

module _ (session : Session) (namespace : Text) (visibility : Visibility) (published_by : Text)
    (request : PublishSkillRequest) where
  raced_steps :
      (k : Uuid) (db : Db) (r : SkillVersionRecord)
      → upsert_skill (skill_row session namespace visibility request) db ≡ some (k, db)
      → select_skill_version k request.manifest.version db ≡ none
      → insert_skill_version (version_row session k published_by request) (session.others db)
        ≡ some (false, session.others db)
      → select_skill_version k request.manifest.version (session.others db) ≡ some r
      → ((s : Statement) → session.fault s ≡ none)
      → insert_version session namespace visibility published_by request db
        ≡ (settled namespace request r, session.others db)
  unfolding insert_version
  raced_steps k db r u s i a calm =
      ground (
        arith,
        calm begin,
        calm upsert,
        calm lookup,
        calm insert_row,
        calm lookup_again,
        calm commit,
      )

  -- The skill is there, before and after the others commit.
  pub record IsRaced (db : Db) (r : SkillVersionRecord) : Type 0 where
    pub before : SkillRow
    pub after : SkillRow
    pub found : find (is_skill namespace request.manifest.name) db.skills ≡ some before
    pub missing : view db namespace request.manifest.name request.manifest.version ≡ none
    pub kept :
        find (is_skill namespace request.manifest.name) (session.others db).skills ≡ some after
    pub same_id : after.id ≡ before.id
    pub committed :
        view (session.others db) namespace request.manifest.name request.manifest.version ≡ some r

  upserted_there :
      (db : Db) (s : SkillRow)
      → find (is_skill namespace request.manifest.name) db.skills ≡ some s
      → upsert_skill (skill_row session namespace visibility request) db ≡ some (s.id, db)
  unfolding upsert_skill
  upserted_there db s h = rw h refl

  select_of_view :
      (db : Db) (s : SkillRow) (o : Option SkillVersionRecord)
      → find (is_skill namespace request.manifest.name) db.skills ≡ some s
      → view db namespace request.manifest.name request.manifest.version ≡ o
      → select_skill_version s.id request.manifest.version db ≡ o
  unfolding lookup_version
  select_of_view db s o h v = rw h at v

  blocked_insert :
      (k : Uuid) (db : Db) (r : SkillVersionRecord)
      → select_skill_version k request.manifest.version db ≡ some r
      → insert_skill_version (version_row session k published_by request) db ≡ some (false, db)
  unfolding insert_skill_version select_skill_version
  blocked_insert k db r h =
      elim (Option-cases (find (is_version k request.manifest.version) db.skill_versions)) [
        | inl e ↦ absurd (ground arith)
        | inr (sv, e) ↦ rw e refl
      ]

  moved :
      (i j : Uuid) (db : Db) (r : SkillVersionRecord)
      → i ≡ j
      → select_skill_version i request.manifest.version db ≡ some r
      → select_skill_version j request.manifest.version db ≡ some r
  moved i j db r e h = rw e at h

  -- A publish that loses a race for its version, which another session commits between the lookup
  -- and the insert, replaces nothing: it answers the winner's record if the digests are the same,
  -- and reports a conflict if not, and leaves the tables as the others have committed them. The
  -- skill was there and keeps its id, and no statement fails.
  pub insert_version-race :
      (db : Db) (r : SkillVersionRecord)
      → IsRaced db r
      → ((s : Statement) → session.fault s ≡ none)
      → insert_version session namespace visibility published_by request db
        ≡ (settled namespace request r, session.others db)
  insert_version-race db r race calm =
      let again =
        moved race.after.id race.before.id (session.others db) r race.same_id
          (select_of_view (session.others db) race.after (some r) race.kept race.committed) in
      raced_steps race.before.id db r (upserted_there db race.before race.found)
        (select_of_view db race.before none race.found race.missing)
        (blocked_insert race.before.id (session.others db) r again) again calm
