-- ===== src/Index/Postgres.antt =====
-- crates/hub-index/src/postgres.rs. A call is given a `Session`: what it takes from the clock, the
-- random source, the network and other sessions.
pub mod Steps
pub mod Failures
pub mod Upserts
pub mod Rule
pub mod Undone
pub mod Lookup
pub mod Publishing
pub mod WellFormed
pub mod Roundtrip
pub mod Yank
use agentenv_skills_hub.Common.{
  ℕ, Bool, true, false, not, Option, none, some, Result, ok, err, ◌==◌, if◌then◌else◌,
}
use agentenv_skills_hub.Common.State.{Run, ◌>>=◌, ◌>>◌, lift, pure}
use agentenv_skills_hub.Common.Text.{Text, text, text_eq}
use agentenv_skills_hub.Core.Error.{
  HubError, HubResult, database, version_digest_conflict, skill_version_not_found,
}
use agentenv_skills_hub.Core.Model.{
  Uuid, OffsetDateTime, Visibility, public, private, unlisted, PublishSkillRequest,
  SkillVersionRecord,
}
use agentenv_skills_hub.Index.Json.{manifest_value}
use agentenv_skills_hub.Index.Tables.{
  SkillRow, SkillVersionRow, Db, upsert_skill, select_skill_version, insert_skill_version,
  update_latest, set_yank,
}

-- The points at which a call speaks to the server.
pub data Statement : Type 0 where
  begin upsert lookup insert_row lookup_again set_latest commit : Statement
  update_yank select_index select_public : Statement

-- `fault` says which statements fail, with the message of the `sqlx::Error`; `constraint` is the
-- message of a violated primary key, `row_not_found` that of `fetch_one` without a row. `others` is
-- what other sessions commit between the lookup of the version and the insert.
pub record Session : Type 0 where
  pub now : OffsetDateTime
  pub skill_id : Uuid
  pub version_id : Uuid
  pub fault : Statement → Option Text
  pub constraint : Text
  pub row_not_found : Text
  pub others : Db → Db

unfoldable pub visibility_text : Visibility → Text
visibility_text public = text "public"
visibility_text private = text "private"
visibility_text unlisted = text "unlisted"

-- `.await.map_err(db_error)?` on a statement that has no result.
abbrev pub checked : Option Text → HubResult Unit
checked none = ok tt
checked (some message) = err (database message)

-- The transaction sees `view`; `shared` is what is committed.
pub record Tx : Type 0 where
  pub view : Db
  pub shared : Db

-- A statement whose failure is a violated constraint.
abbrev write : {A : Type 0} → Text → Option (A × Db) → Tx → Result HubError A × Tx
write message none tx = (err (database message), tx)
write message (some (a, db)) tx = (ok a, record tx { view = db })

abbrev or_missing : Text → Option SkillVersionRecord → HubResult SkillVersionRecord
or_missing message none = err (database message)
or_missing message (some r) = ok r

-- A transaction that is dropped before its commit is rolled back.
abbrev pub close : Result HubError SkillVersionRecord × Tx → HubResult SkillVersionRecord × Db
close (ok stored, tx) = (ok stored, tx.view)
close (err e, tx) = (err e, tx.shared)

-- The common tail of the two updates: no row written means no such version.
abbrev pub found_rows : Text → Text → Text → ℕ × Db → HubResult Unit × Db
found_rows namespace name version (rows, db) =
    if rows == 0 then (err (skill_version_not_found namespace name version), db) else (ok tt, db)

module _ (session : Session) where
  abbrev reach : Statement → Run Tx HubError Unit
  reach statement = lift (checked (session.fault statement))

  abbrev interfere : Run Tx HubError Unit
  interfere tx =
      (ok tt, record { view = session.others tx.view; shared = session.others tx.shared })

  abbrev pub skill_row : Text → Visibility → PublishSkillRequest → SkillRow
  skill_row namespace visibility request = record {
    id = session.skill_id;
    namespace = namespace;
    name = request.manifest.name;
    description = request.manifest.description;
    latest_version = some request.manifest.version;
    visibility = visibility_text visibility;
    created_at = session.now;
    updated_at = session.now;
  }

  abbrev pub version_row : Uuid → Text → PublishSkillRequest → SkillVersionRow
  version_row skill_id published_by request = record {
    id = session.version_id;
    skill_id = skill_id;
    version = request.manifest.version;
    digest = request.artifact.digest;
    manifest_json = manifest_value request.manifest;
    artifact_url = request.artifact.url;
    artifact_media_type = request.artifact.media_type;
    signature_ed25519 = request.signature_ed25519;
    public_key_ed25519 = request.public_key_ed25519;
    sigstore_bundle_json = request.sigstore_bundle;
    yanked_at = none;
    yank_reason = none;
    published_by = published_by;
    created_at = session.now;
  }

  abbrev pub new_record : Text → PublishSkillRequest → SkillVersionRecord
  new_record namespace request = record {
    id = session.version_id;
    namespace = namespace;
    name = request.manifest.name;
    version = request.manifest.version;
    description = request.manifest.description;
    digest = request.artifact.digest;
    artifact_url = request.artifact.url;
    artifact_media_type = request.artifact.media_type;
    signature_ed25519 = request.signature_ed25519;
    public_key_ed25519 = request.public_key_ed25519;
    yanked_at = none;
    yank_reason = none;
    created_at = session.now;
  }

  -- The version is there already: its record, if the digest is the same.
  unfoldable pub keep_existing :
      Text → PublishSkillRequest → SkillVersionRecord → Run Tx HubError SkillVersionRecord
  keep_existing namespace request existing =
      if not (text_eq existing.digest request.artifact.digest)
      then lift
          (err (version_digest_conflict namespace request.manifest.name request.manifest.version))
      else (do reach commit; pure existing)

  unfoldable pub insert_new :
      Text → Text → PublishSkillRequest → Uuid → Run Tx HubError SkillVersionRecord
  unfolding insert_skill_version select_skill_version update_latest keep_existing
  insert_new namespace published_by request skill_id = do
    interfere
    reach insert_row
    inserted ← (λ tx.
        write session.constraint
          (insert_skill_version (version_row skill_id published_by request) tx.view) tx)
    if not inserted
        then (do
          reach lookup_again
          existing ← (λ tx.
              lift
                (or_missing session.row_not_found
                  (select_skill_version skill_id request.manifest.version tx.view))
                tx)
          keep_existing namespace request existing)
        else (do
          reach set_latest
          (λ tx. (
            ok tt,
            record tx {
              view = update_latest request.manifest.version session.now skill_id tx.view;
            },
          ))
          reach commit
          pure (new_record namespace request))

  unfoldable pub insert_in_tx :
      Text → Visibility → Text → PublishSkillRequest → Run Tx HubError SkillVersionRecord
  unfolding upsert_skill select_skill_version keep_existing insert_new
  insert_in_tx namespace visibility published_by request = do
    reach begin
    reach upsert
    skill_id ← (λ tx.
        write session.constraint (upsert_skill (skill_row namespace visibility request) tx.view) tx)
    reach lookup
    conflict ← (λ tx. (ok (select_skill_version skill_id request.manifest.version tx.view), tx))
    elim conflict [
      | some existing ↦ keep_existing namespace request existing
      | none ↦ insert_new namespace published_by request skill_id
    ]

  unfoldable pub insert_version :
      Text → Visibility → Text → PublishSkillRequest → Run Db HubError SkillVersionRecord
  unfolding insert_in_tx
  insert_version namespace visibility published_by request db =
      close
        (insert_in_tx namespace visibility published_by request (record { view = db; shared = db }))

  unfoldable pub yank_version : Text → Text → Text → Text → Run Db HubError Unit
  yank_version namespace name version reason = do
    lift (checked (session.fault update_yank))
    (λ db.
        found_rows namespace name version
          (set_yank (some session.now) (some reason) namespace name version db))

  unfoldable pub unyank_version : Text → Text → Text → Run Db HubError Unit
  unyank_version namespace name version = do
    lift (checked (session.fault update_yank))
    (λ db. found_rows namespace name version (set_yank none none namespace name version db))
