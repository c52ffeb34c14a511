-- ===== src/Tests/Storage.antt =====
-- The theorems about hub-storage at concrete digests.
use agentenv_skills_hub.Storage.Stores.{
  endpoint_url, trim_end_slashes, trim_start_slashes, first_layer_digest, oci_image, oci_fetch,
  file_fetch, Outside, s3_fetch,
}
use agentenv_skills_hub.Common.{
  find, none, some, ◌++◌, ◌<◌, length, [], ◌∷◌, ok, ◌≡◌, refl, ◌↔◌, ◌%◌, All, List, ℕ, arith,
}
use agentenv_skills_hub.Core.Crates.{Crates}
use agentenv_skills_hub.Tests.Fixtures.{file_url, crates, core_code}
use agentenv_skills_hub.Common.Text.{
  rsplit_once, trim_end, trim_start, to_ascii_lowercase, Text, text,
}
use agentenv_skills_hub.Storage.Digest.{
  hex, validate_digest-normalize, verify-sha256_digest, IsSha256,
}
use agentenv_skills_hub.Core.Validation.{validate_digest}
use agentenv_skills_hub.Storage.{
  push_hex_byte, push_hex_bytes, parse_artifact_pointer, sha256_digest, verify_sha256_digest,
  normalize_sha256_digest,
}

unfoldable pub repeat : ℕ → ℕ → List ℕ
repeat ℕ.zero b = []
repeat (ℕ.suc n) b = b ∷ repeat n b

repeat-All : (n b : ℕ) → b < 256 → All (λ c. c < 256) (repeat n b)
unfolding repeat
repeat-All ℕ.zero b h = tt
repeat-All (ℕ.suc n) b h = (h, repeat-All n b h)

-- A digest of 32 equal bytes.
unfoldable pub equal_bytes : List ℕ → List ℕ
equal_bytes content = repeat 32 (length content % 256)

equal_bytes-IsSha256 : IsSha256 equal_bytes
unfolding repeat equal_bytes
equal_bytes-IsSha256 content =
    let b : length content % 256 < 256 = omega arith in
    (refl, repeat-All 32 (length content % 256) b)

validate_digest-normalize_example :
    (validate_digest (text "sha256:zz") ≡ ok tt)
    ↔ ((d : Text) × (normalize_sha256_digest (text "sha256:zz") ≡ ok d))
validate_digest-normalize_example = validate_digest-normalize (text "sha256:zz")

-- A parser that answers with one address.
abbrev pub parser_of : Text → Text → Crates
parser_of s p = record crates {
  parse_url = λ u. ok (record {
    scheme = s;
    username = [];
    password = none;
    host_str = some (text "reg");
    path = p;
    query = none;
    fragment = none;
  });
}

abbrev pub content : List ℕ
content = text "abc"

abbrev pub digest : Text
digest = text "sha256:" ++ hex (repeat 32 3)

verify-sha256_digest_example :
    (normalize_sha256_digest (sha256_digest equal_bytes content)
      ≡ ok (sha256_digest equal_bytes content))
    × (verify_sha256_digest equal_bytes content (sha256_digest equal_bytes content) ≡ ok tt)
verify-sha256_digest_example = verify-sha256_digest equal_bytes content equal_bytes-IsSha256

-- Every read answers with the same content, and every manifest lists its digest.
abbrev pub outside : Outside
outside = record {
  to_file_path = λ u. some u.path;
  read = λ p. ok content;
  get_bytes = λ u. ok content;
  get_manifest = λ u. ok (record { layers = record { digest = digest } ∷ [] });
  set_path = λ u p. record u { path = p };
  sha256 = equal_bytes;
}

unfoldable pub storage_code : Unit {0}
unfolding core_code repeat hex equal_bytes parse_artifact_pointer normalize_sha256_digest
    sha256_digest verify_sha256_digest push_hex_bytes push_hex_byte to_ascii_lowercase file_fetch
    s3_fetch oci_fetch oci_image first_layer_digest trim_start_slashes trim_end_slashes trim_start
    trim_end endpoint_url rsplit_once find
storage_code = tt

file_run :
    file_fetch (parser_of (text "file") (text "/a")) outside (text "file:///a") digest ≡ ok content
unfolding storage_code
file_run = refl

s3_run :
    s3_fetch (parser_of (text "s3") (text "/k")) outside (some file_url) (text "s3://reg/k") digest
    ≡ ok content
unfolding storage_code
s3_run = refl

oci_run :
    oci_fetch
      (parser_of (text "oci") (text "/a:1"))
      outside
      (some (text "reg"))
      (some file_url)
      (text "oci://reg/a:1")
      digest
    ≡ ok content
unfolding storage_code
oci_run = refl
