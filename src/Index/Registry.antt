-- ===== src/Index/Registry.antt =====
-- The registry that crates/hub-index promises: a record for each namespace, name and version. Rows,
-- ids and the order of the tables are forgotten.
pub mod Views
pub mod Publish
pub mod Keys
pub mod Rows
pub mod Marks
pub mod Yank
pub mod History
pub mod Progress
pub mod Overlap
pub mod Race
use agentenv_skills_hub.Index.Postgres.Failures.{is_database}
use agentenv_skills_hub.Index.Postgres.{new_record, Session}
use agentenv_skills_hub.Core.Error.{version_digest_conflict, HubResult, database, HubError}
use agentenv_skills_hub.Core.Model.{PublishSkillRequest, SkillVersionRecord}
use agentenv_skills_hub.Index.Postgres.Lookup.{lookup_version}
use agentenv_skills_hub.Common.Text.{text_eq, Text}
use agentenv_skills_hub.Index.Tables.{Db}
use agentenv_skills_hub.Common.{
  err, ◌≢◌, some, ok, none, false, ◌≡◌, true, Option, Bool, if◌then◌else◌, ◌&&◌,
}

abbrev pub Registry : Type 0
Registry = Text → Text → Text → Option SkillVersionRecord

-- What the tables stand for.
abbrev pub view : Db → Registry
view db namespace name version = lookup_version namespace name version db

abbrev pub same_key : Text → Text → Text → Text → Text → Text → Bool
same_key namespace name version namespace' name' version' =
    text_eq namespace namespace' && (text_eq name name' && text_eq version version')

-- The registry with another entry at one key.
abbrev pub update : Text → Text → Text → Option SkillVersionRecord → Registry → Registry
update namespace name version entry registry namespace' name' version' =
    if same_key namespace name version namespace' name' version'
    then entry
    else registry namespace' name' version'

-- What publishing may do to the registry, and answer. A version is never replaced: it is created
-- where there is none, kept where the digest is the same, and refused otherwise; and the call may
-- fail and change nothing.
module _ (session : Session) (namespace : Text) (request : PublishSkillRequest) (before : Registry)
    (answer : HubResult SkillVersionRecord) (after : Registry) where
  pub data Publishes : Type 0 where
    created :
        before namespace request.manifest.name request.manifest.version ≡ none
        → answer ≡ ok (new_record session namespace request)
        → after
          ≡ update namespace request.manifest.name request.manifest.version
              (some (new_record session namespace request))
              before
        → Publishes
    kept :
        (r : SkillVersionRecord)
        → before namespace request.manifest.name request.manifest.version ≡ some r
        → r.digest ≡ request.artifact.digest
        → answer ≡ ok r
        → after ≡ before
        → Publishes
    refused :
        (r : SkillVersionRecord)
        → before namespace request.manifest.name request.manifest.version ≡ some r
        → r.digest ≢ request.artifact.digest
        → answer
          ≡ err (version_digest_conflict namespace request.manifest.name request.manifest.version)
        → after ≡ before
        → Publishes
    failed : (e : HubError) → is_database e ≡ true → answer ≡ err e → after ≡ before → Publishes
