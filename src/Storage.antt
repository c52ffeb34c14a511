-- ===== src/Storage.antt =====
-- crates/hub-storage: artifact pointers, digests and the three stores. `sha256` is the crate `sha2`,
-- `to_file_path` the method of `url::Url`, and a fetch answers with bytes or a message.
pub mod Digest
pub mod Stores
pub mod Fetched
pub mod Confined
use agentenv_skills_hub.Core.Validation.{has_user_info}
use agentenv_skills_hub.Common.{
  ◌-◌, ltb, ℕ, ◌+◌, ◌/◌, ◌%◌, Bool, not, ◌&&◌, ◌||◌, Option, none, some, List, [], ◌∷◌, ◌++◌,
  Result, ok, err, map_err, ok_or, reject_if, ◌>>=◌, ◌>>◌, length, all, map, if◌then◌else◌, ◌==◌,
  is_empty, is_some, find,
}
use agentenv_skills_hub.Common.Text.{
  Text, text, text_eq, bytes, strip_prefix, is_ascii_hexdigit, to_ascii_lowercase,
}
use agentenv_skills_hub.Core.Crates.{Url, Crates}

-- The sources of `client` and `fetch`, `reqwest::Error`s, and that of `read_artifact`, an
-- `io::Error`, are kept as their messages.
pub data StorageError : Type 0 where
  invalid_pointer : (value message : Text) → StorageError
  invalid_digest : (value : Text) → StorageError
  digest_mismatch : (expected actual : Text) → StorageError
  read_artifact : (path source : Text) → StorageError
  client : (source : Text) → StorageError
  fetch : (pointer source : Text) → StorageError

abbrev pub StorageResult : Type 0 → Type 0
StorageResult A = Result StorageError A

unfoldable pub parse_artifact_pointer : Crates → Text → StorageResult Url
parse_artifact_pointer crates value = do
  url ← map_err (λ source. invalid_pointer value source) (crates.parse_url value)
  reject_if (has_user_info url)
      (invalid_pointer value (text "artifact pointer must not include user info"))
  if text_eq url.scheme (text "file")
        || text_eq url.scheme (text "oci")
        || text_eq url.scheme (text "s3")
      then ok url
      else err (
          invalid_pointer value
            (text "unsupported artifact pointer scheme `" ++ (url.scheme ++ text "`")))

abbrev normalized : Text → Option Text → StorageResult Text
normalized value none = err (invalid_digest value)
normalized value (some hex) =
    if not (length (bytes hex) == 64) || not (all is_ascii_hexdigit (bytes hex))
    then err (invalid_digest value)
    else ok (text "sha256:" ++ map to_ascii_lowercase hex)

unfoldable pub normalize_sha256_digest : Text → StorageResult Text
normalize_sha256_digest value = normalized value (strip_prefix (text "sha256:") value)

-- The table `b"0123456789abcdef"`, indexed by a number below 16.
abbrev pub hex_digit : ℕ → ℕ
hex_digit d = if ltb d 10 then b'0' + d else b'a' + (d - 10)

unfoldable pub push_hex_byte : Text → ℕ → Text
push_hex_byte hex byte = (hex ++ hex_digit (byte / 16) ∷ []) ++ hex_digit (byte % 16) ∷ []

-- The loop over the bytes of the digest.
unfoldable pub push_hex_bytes : Text → List ℕ → Text
unfolding push_hex_byte
push_hex_bytes hex [] = hex
push_hex_bytes hex (byte ∷ rest) = push_hex_bytes (push_hex_byte hex byte) rest

module _ (sha256 : List ℕ → List ℕ) where
  unfoldable pub sha256_digest : List ℕ → Text
  unfolding push_hex_bytes
  sha256_digest content = text "sha256:" ++ push_hex_bytes [] (sha256 content)

  unfoldable pub verify_sha256_digest : List ℕ → Text → StorageResult Unit
  verify_sha256_digest content expected_digest = do
    expected ← normalize_sha256_digest expected_digest
    reject_if (not (text_eq (sha256_digest content) expected))
        (digest_mismatch expected (sha256_digest content))
