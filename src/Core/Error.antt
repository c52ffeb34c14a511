-- ===== src/Core/Error.antt =====
-- crates/hub-core/src/error.rs
use agentenv_skills_hub.Common.{Result, ◌++◌}
use agentenv_skills_hub.Common.Text.{Text, text}

-- The `source` of `invalid_version`, a `semver::Error`, is kept as its message.
pub data HubError : Type 0 where
  invalid_namespace : (value : Text) → HubError
  invalid_skill_name : (value : Text) → HubError
  invalid_version : (value source : Text) → HubError
  invalid_digest : (value : Text) → HubError
  unsafe_skill_path : (path : Text) → HubError
  invalid_artifact_url : (value message : Text) → HubError
  permission_denied : (action namespace : Text) → HubError
  unsigned_artifact_rejected : HubError
  artifact_verification : (message : Text) → HubError
  trust_verification : (message : Text) → HubError
  version_digest_conflict : (namespace name version : Text) → HubError
  skill_version_not_found : (namespace name version : Text) → HubError
  database : (message : Text) → HubError

abbrev pub HubResult : Type 0 → Type 0
HubResult A = Result HubError A

abbrev quoted : Text → Text
quoted s = text "`" ++ (s ++ text "`")

abbrev skill_version : Text → Text → Text → Text
skill_version namespace name version =
    text "skill `" ++ (namespace ++ (text "/" ++ (name ++ (text "` version " ++ quoted version))))

-- `Display`, from the `#[error]` attributes.
unfoldable pub to_string : HubError → Text
to_string (invalid_namespace value) = text "invalid namespace " ++ quoted value
to_string (invalid_skill_name value) = text "invalid skill name " ++ quoted value
to_string (invalid_version value source) =
    text "invalid version " ++ (quoted value ++ (text ": " ++ source))
to_string (invalid_digest value) = text "invalid digest " ++ quoted value
to_string (unsafe_skill_path path) = text "unsafe skill path " ++ quoted path
to_string (invalid_artifact_url value message) =
    text "invalid artifact URL " ++ (quoted value ++ (text ": " ++ message))
to_string (permission_denied action namespace) =
    text "permission denied for " ++ (quoted action ++ (text " on namespace " ++ quoted namespace))
to_string unsigned_artifact_rejected = text "unsigned skill artifacts are not allowed"
to_string (artifact_verification message) = text "artifact verification failed: " ++ message
to_string (trust_verification message) = text "trust verification failed: " ++ message
to_string (version_digest_conflict namespace name version) =
    skill_version namespace name version ++ text " already exists with another digest"
to_string (skill_version_not_found namespace name version) =
    skill_version namespace name version ++ text " was not found"
to_string (database message) = text "database error: " ++ message
