-- ===== src/Api/Handlers.antt =====
-- The parts of crates/hub-api/src/handlers.rs that read a request, and crates/hub-api/src/error.rs.
pub mod Laws
pub mod Reads
pub mod Writes
pub mod Fixture
pub mod Artifacts
use agentenv_skills_hub.Core.Error.{
  version_digest_conflict, database, skill_version_not_found, permission_denied, to_string,
  HubError,
}
use mathlib.Core.Option
use agentenv_skills_hub.Common.{
  true, false, ◌++◌, ok_or, if◌then◌else◌, ℕ, ok, err, none, some, ◌>>=◌, ◌>>◌, [], ◌∷◌, List,
  Option, Result, Bool, not, keep, map, is_empty,
}
use agentenv_skills_hub.Common.Text.{text_eq, trim, split_once, Text, split, text, strip_suffix}
use agentenv_skills_hub.Core.Model.{
  Value, object, field, string, end, NamespaceRole, reader, publisher, admin,
}
use agentenv_skills_hub.Core.Auth
use agentenv_skills_hub.Core.Auth.{AuthContext, anonymous}

pub record ApiError : Type 0 where
  pub status : ℕ
  pub message : Text

abbrev pub ApiResult : Type 0 → Type 0
ApiResult A = Result ApiError A

abbrev pub bad_request : Text → ApiError
bad_request message = record { status = 400; message = message }

abbrev pub unavailable : Text → ApiError
unavailable message = record { status = 503; message = message }

abbrev pub internal : Text → ApiError
internal message = record { status = 500; message = message }

abbrev pub status : HubError → ℕ
status (permission_denied action namespace) = 403
status (skill_version_not_found namespace name version) = 404
status (database message) = 500
status (version_digest_conflict namespace name version) = 409
status _ = 400

-- `From<HubError>`
unfoldable pub from : HubError → ApiError
from error = record { status = status error; message = to_string error }

-- The status and the JSON body of an error.
abbrev pub into_response : ApiError → ℕ × Value
into_response error = (error.status, object (field (text "error") (string error.message) end))

-- `get` and `to_str` of a header; the error says that its value is no text.
abbrev pub HeaderMap : Type 0
HeaderMap = Text → Option (Result (Unit {0}) Text)

abbrev read_value : Text → Option (Result (Unit {0}) Text) → ApiResult (Option Text)
read_value name none = ok none
read_value name (some (ok value)) = ok (some value)
read_value name (some (err e)) =
    err (bad_request (text "header `" ++ (name ++ text "` must be valid UTF-8")))

unfoldable pub header_value : HeaderMap → Text → ApiResult (Option Text)
header_value headers name = read_value name (headers name)

abbrev or_else : Option (Text × Text) → Option (Text × Text) → Option (Text × Text)
or_else none o = o
or_else (some p) o = some p

abbrev role_of : Text → ApiResult NamespaceRole
role_of role =
    if text_eq role (text "reader")
    then ok reader
    else if text_eq role (text "publisher")
    then ok publisher
    else if text_eq role (text "admin")
    then ok admin
    else err (bad_request (text "unknown namespace role `" ++ (role ++ text "`")))

unfoldable pub parse_role : Text → ApiResult (Text × NamespaceRole)
unfolding split_once
parse_role value = do
  entry ←
      ok_or (bad_request (text "role entries must use namespace:role"))
        (or_else (split_once b':' value) (split_once b'=' value))
  role ← role_of entry.1
  ok (entry.0, role)

unfoldable pub parse_roles : List Text → ApiResult (List (Text × NamespaceRole))
unfolding parse_role
parse_roles [] = ok []
parse_roles (value ∷ values) = do
  role ← parse_role value
  roles ← parse_roles values
  ok (role ∷ roles)

abbrev or_default : Option Text → Text
or_default none = []
or_default (some s) = s

-- `split(',')`, `map(str::trim)`, and `filter` of what is not empty.
unfoldable pub entries : Text → List Text
unfolding split trim keep
entries value = keep (λ s. not (is_empty s)) (map trim (split b',' value))

abbrev authenticated : HeaderMap → Option Text → ApiResult AuthContext
authenticated headers none = ok anonymous
authenticated headers (some subject) = do
  scopes ← header_value headers (text "x-agentenv-scopes")
  listed ← header_value headers (text "x-agentenv-roles")
  roles ← parse_roles (entries (or_default listed))
  ok (Auth.new subject (entries (or_default scopes)) roles)

unfoldable pub auth_from_headers : HeaderMap → ApiResult AuthContext
unfolding header_value parse_roles entries
auth_from_headers headers = do
  subject ← header_value headers (text "x-agentenv-subject")
  authenticated headers subject

abbrev or_unsigned : Text → Option Text → Option (Text × Bool)
or_unsigned artifact (some version) = some (version, true)
or_unsigned artifact none =
    Option.map (λ version. (version, false)) (strip_suffix (text ".tar.zst") artifact)

-- The version that a file name of an artifact or of its signature names.
unfoldable pub artifact_version : Text → Option (Text × Bool)
unfolding strip_suffix
artifact_version artifact = or_unsigned artifact (strip_suffix (text ".tar.zst.sig") artifact)
