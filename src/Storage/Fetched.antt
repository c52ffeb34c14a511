-- ===== src/Storage/Fetched.antt =====
-- What the three stores answer.
use agentenv_skills_hub.Storage.Digest.{verify_sha256_digest_iff}
use agentenv_skills_hub.Storage.{sha256_digest, normalize_sha256_digest, parse_artifact_pointer}
use agentenv_skills_hub.Common.Text.{text_eq, text, Text}
use agentenv_skills_hub.Storage.Stores.{oci_fetch, file_fetch, s3_fetch, Outside}
use agentenv_skills_hub.Core.Crates.{Url, Crates}
use agentenv_skills_hub.Common.{inr, true, inl, Result-cases, ◌≡◌, ok, arith, List, ℕ, Option}

module _ (crates : Crates) (outside : Outside) where
  -- The pointer parses as one of the scheme, and the bytes are those of the expected digest.
  abbrev pub IsVerified : Text → Text → Text → List ℕ → Type 0
  IsVerified scheme pointer expected_digest content =
      ((url : Url) × (parse_artifact_pointer crates pointer ≡ ok url)
        × (text_eq url.scheme scheme ≡ true))
      × (normalize_sha256_digest expected_digest ≡ ok (sha256_digest outside.sha256 content))

  -- A file that the store returns is that of a `file` pointer, and has the expected digest.
  pub file_fetch-IsVerified :
      (pointer expected_digest : Text) (content : List ℕ)
      → file_fetch crates outside pointer expected_digest ≡ ok content
      → IsVerified (text "file") pointer expected_digest content
  unfolding file_fetch
  file_fetch-IsVerified pointer expected_digest content h =
      elim (Result-cases (parse_artifact_pointer crates pointer)) [
        | inl (url, e) ↦ (
          (url, e, ground arith),
          (verify_sha256_digest_iff outside.sha256 content expected_digest).0 (ground arith),
        )
        | inr (x, e) ↦ absurd (ground arith)
      ]

  -- An object that the store returns is that of an `s3` pointer, and has the expected digest.
  pub s3_fetch-IsVerified :
      (endpoint : Option Url) (pointer expected_digest : Text) (content : List ℕ)
      → s3_fetch crates outside endpoint pointer expected_digest ≡ ok content
      → IsVerified (text "s3") pointer expected_digest content
  unfolding s3_fetch
  s3_fetch-IsVerified endpoint pointer expected_digest content h =
      elim (Result-cases (parse_artifact_pointer crates pointer)) [
        | inl (url, e) ↦ (
          (url, e, ground arith),
          (verify_sha256_digest_iff outside.sha256 content expected_digest).0 (ground arith),
        )
        | inr (x, e) ↦ absurd (ground arith)
      ]

  -- A layer that the store returns is that of an `oci` pointer, and has the expected digest.
  pub oci_fetch-IsVerified :
      (registry_host : Option Text) (base_url : Option Url) (pointer expected_digest : Text)
      (content : List ℕ)
      → oci_fetch crates outside registry_host base_url pointer expected_digest ≡ ok content
      → IsVerified (text "oci") pointer expected_digest content
  unfolding oci_fetch
  oci_fetch-IsVerified registry_host base_url pointer expected_digest content h =
      elim (Result-cases (parse_artifact_pointer crates pointer)) [
        | inl (url, e) ↦ (
          (url, e, ground arith),
          (verify_sha256_digest_iff outside.sha256 content expected_digest).0 (ground arith),
        )
        | inr (x, e) ↦ absurd (ground arith)
      ]
