-- ===== src/Core/Validation.antt =====
-- crates/hub-core/src/validation.rs
pub mod Names
pub mod Paths
pub mod Safety
pub mod Links
use agentenv_skills_hub.Common.{
  ℕ, Bool, false, not, ◌&&◌, ◌||◌, Option, none, some, List, [], ◌∷◌, ◌++◌, Result, ok, err, ◌>>=◌,
  ◌>>◌, map_err, reject_if, all, length, is_empty, ◌==◌, if◌then◌else◌, is_some,
}
use agentenv_skills_hub.Common.Text.{
  Text, text, text_eq, bytes, strip_prefix, starts_with, contains_char, is_ascii_lowercase,
  is_ascii_digit, is_ascii_hexdigit, is_ascii_alphabetic,
}
use agentenv_skills_hub.Core.Error.{
  HubResult, invalid_namespace, invalid_skill_name, invalid_version, invalid_digest,
  unsafe_skill_path, invalid_artifact_url,
}
use agentenv_skills_hub.Core.FilePath.{
  Component, root_dir, cur_dir, parent_dir, normal, components, push,
}
use agentenv_skills_hub.Core.Crates.{Url, Crates}

unfoldable pub identifier_byte : ℕ → Bool
unfolding is_ascii_lowercase is_ascii_digit
identifier_byte byte =
    is_ascii_lowercase byte || is_ascii_digit byte || byte == b'-' || byte == b'_'

-- The result of `validate_ascii_identifier` is `Result<(), ()>`.
unfoldable pub validate_ascii_identifier : Text → Result (Unit {0}) Unit
unfolding identifier_byte
validate_ascii_identifier value =
    if is_empty value || starts_with (text ".") value || not (all identifier_byte (bytes value))
    then err tt
    else ok tt

unfoldable pub validate_namespace : Text → HubResult Unit
unfolding validate_ascii_identifier
validate_namespace value = map_err (λ _. invalid_namespace value) (validate_ascii_identifier value)

unfoldable pub skill_name_byte : ℕ → Bool
unfolding is_ascii_lowercase is_ascii_digit
skill_name_byte byte =
    is_ascii_lowercase byte || is_ascii_digit byte || byte == b'-' || byte == b'_' || byte == b'.'

unfoldable pub validate_skill_name : Text → HubResult Unit
unfolding skill_name_byte
validate_skill_name value =
    if is_empty value || starts_with (text ".") value || not (all skill_name_byte (bytes value))
    then err (invalid_skill_name value)
    else ok tt

-- The test of the part behind `sha256:`.
unfoldable pub is_sha256_hex : Text → Bool
unfolding is_ascii_hexdigit
is_sha256_hex hex = length (bytes hex) == 64 && all is_ascii_hexdigit (bytes hex)

abbrev digest_checked : Text → Option Text → HubResult Unit
digest_checked value none = err (invalid_digest value)
digest_checked value (some hex) =
    if not (is_sha256_hex hex) then err (invalid_digest value) else ok tt

unfoldable pub validate_digest : Text → HubResult Unit
validate_digest value = digest_checked value (strip_prefix (text "sha256:") value)

abbrev drive_prefix : List ℕ → Bool
drive_prefix (b0 ∷ b1 ∷ rest) = is_ascii_alphabetic b0 && b1 == b':'
drive_prefix _ = false

unfoldable pub has_windows_drive_prefix : Text → Bool
has_windows_drive_prefix value = drive_prefix (bytes value)

-- The loop over the components.
unfoldable pub push_components : Text → Text → List Component → HubResult Text
push_components value normalized [] = ok normalized
push_components value normalized (normal part ∷ rest) =
    push_components value (push normalized part) rest
push_components value normalized (cur_dir ∷ rest) = push_components value normalized rest
push_components value normalized (parent_dir ∷ rest) = err (unsafe_skill_path value)
push_components value normalized (root_dir ∷ rest) = err (unsafe_skill_path value)

-- The tests on the text before the loop.
unfoldable pub is_rejected_text : Text → Bool
is_rejected_text value =
    is_empty value || contains_char b'\\' value || has_windows_drive_prefix value

unfoldable pub validate_skill_path : Text → HubResult Text
unfolding is_rejected_text push_components
validate_skill_path value = do
  reject_if (is_rejected_text value) (unsafe_skill_path value)
  normalized ← push_components value (text "") (components value)
  reject_if (is_empty normalized) (unsafe_skill_path value)
  ok normalized

abbrev pub has_user_info : Url → Bool
has_user_info url = not (is_empty url.username) || is_some url.password

abbrev pub is_supported_scheme : Text → Bool
is_supported_scheme scheme =
    text_eq scheme (text "oci") || text_eq scheme (text "s3") || text_eq scheme (text "file")

module _ (crates : Crates) where
  unfoldable pub validate_version : Text → HubResult crates.Version
  validate_version value =
      map_err (λ source. invalid_version value source) (crates.parse_version value)

  unfoldable pub validate_artifact_url : Text → HubResult Url
  validate_artifact_url value = do
    url ← map_err (λ source. invalid_artifact_url value source) (crates.parse_url value)
    reject_if (has_user_info url)
        (invalid_artifact_url value (text "artifact URL must not include user info"))
    if is_supported_scheme url.scheme
        then ok url
        else err (
            invalid_artifact_url value
              (text "unsupported artifact URL scheme `" ++ (url.scheme ++ text "`")))
