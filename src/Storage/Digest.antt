-- ===== src/Storage/Digest.antt =====
-- Which digests are accepted, and what verification establishes.
use agentenv_skills_hub.Common.Text.Laws.{
  text_eq_refl, text_eq_iff, bytes_ascii, strip_prefix-append,
}
use mathlib.Core.List.{append_assoc, append-nil}
use agentenv_skills_hub.Core.Validation.{is_sha256_hex, validate_digest}
use agentenv_skills_hub.Common.{
  Result-cases, inr, inl, all, Option-cases, ◌%◌, ◌/◌, ◌*◌, ◌≡◌, ◌↔◌, refl, ◌∙◌, sym, ap, List, [],
  ◌∷◌, ◌++◌, ok, true, All, ◌<◌, arith, length, map, ℕ,
}
use agentenv_skills_hub.Common.Text.{
  strip_prefix, to_ascii_lowercase, is_ascii_hexdigit, Text, text,
}
use agentenv_skills_hub.Storage.{
  push_hex_byte, hex_digit, push_hex_bytes, normalize_sha256_digest, verify_sha256_digest,
  sha256_digest,
}

-- The two validators agree: the service accepts a digest exactly if the storage layer can normalize it.
pub validate_digest-normalize :
    (value : Text)
    → (validate_digest value ≡ ok tt) ↔ ((d : Text) × (normalize_sha256_digest value ≡ ok d))
unfolding validate_digest normalize_sha256_digest is_sha256_hex
validate_digest-normalize value = (
  λ h. elim (Option-cases (strip_prefix (text "sha256:") value)) [
    | inl e ↦ absurd (ground (arith, e))
    | inr k ↦ (text "sha256:" ++ map to_ascii_lowercase k.0, ground (arith, k.1))
  ],
  λ (d, h). ground arith,
)

-- The hexadecimal form of bytes.
unfoldable pub hex : List ℕ → Text
hex [] = []
hex (b ∷ bs) = hex_digit (b / 16) ∷ hex_digit (b % 16) ∷ hex bs

push_hex_bytes-hex : (acc : Text) (bs : List ℕ) → push_hex_bytes acc bs ≡ acc ++ hex bs
unfolding push_hex_bytes push_hex_byte hex
push_hex_bytes-hex acc [] = sym (append-nil acc)
push_hex_bytes-hex acc (b ∷ bs) = push_hex_bytes-hex (push_hex_byte acc b) bs ∙ (simp append_assoc)

length-hex : (bs : List ℕ) → length (hex bs) ≡ 2 * length bs
unfolding hex
length-hex [] = omega arith
length-hex (b ∷ bs) = omega (arith, length-hex bs)

hex_digit-hexdigit :
    (d : ℕ)
    → d < 16
    → (is_ascii_hexdigit (hex_digit d) ≡ true)
      × (to_ascii_lowercase (hex_digit d) ≡ hex_digit d)
      × (hex_digit d < 128)
unfolding is_ascii_hexdigit to_ascii_lowercase
hex_digit-hexdigit d h = (ground arith, ground arith, ground arith)

hex-hexdigit :
    (bs : List ℕ)
    → All (λ b. b < 256) bs
    → (all is_ascii_hexdigit (hex bs) ≡ true)
      × (map to_ascii_lowercase (hex bs) ≡ hex bs)
      × All (λ c. c < 128) (hex bs)
unfolding hex all
hex-hexdigit [] h = (refl, refl, tt)
hex-hexdigit (b ∷ bs) h =
    let (p, q, r) = hex_digit-hexdigit (b / 16) (omega (arith, h.0)) in
    let (s, t, u) = hex_digit-hexdigit (b % 16) (omega arith) in
    let (v, w, x) = hex-hexdigit bs h.1 in (rw (p, s) v, cc (q, t, w), (r, (u, x)))

-- What the crate documents: 32 bytes.
abbrev pub IsSha256 : (List ℕ → List ℕ) → Type 0
IsSha256 sha256 =
    (content : List ℕ) → (length (sha256 content) ≡ 32) × All (λ b. b < 256) (sha256 content)

module _ (sha256 : List ℕ → List ℕ) (content : List ℕ) where
  -- Content passes verification exactly if the expected digest, brought to lower case, is the
  -- content's digest.
  pub verify_sha256_digest_iff :
      (expected : Text)
      → (verify_sha256_digest sha256 content expected ≡ ok tt)
        ↔ (normalize_sha256_digest expected ≡ ok (sha256_digest sha256 content))
  unfolding verify_sha256_digest
  verify_sha256_digest_iff expected = (
    λ h. elim (Result-cases (normalize_sha256_digest expected)) [
      | inl k ↦ ground (arith, k.1, text_eq_iff (sha256_digest sha256 content) k.0)
      | inr k ↦ absurd (ground (arith, k.1))
    ],
    λ h. ground (arith, text_eq_refl (sha256_digest sha256 content)),
  )

  sha256_digest-hex : sha256_digest sha256 content ≡ text "sha256:" ++ hex (sha256 content)
  unfolding sha256_digest
  sha256_digest-hex = ap (λ s. text "sha256:" ++ s) (push_hex_bytes-hex [] (sha256 content))

  normalize-hex :
      IsSha256 sha256
      → normalize_sha256_digest (text "sha256:" ++ hex (sha256 content))
        ≡ ok (text "sha256:" ++ hex (sha256 content))
  unfolding normalize_sha256_digest
  normalize-hex doc =
      let (p, q, r) = hex-hexdigit (sha256 content) (doc content).1 in
      let l = length-hex (sha256 content) in
      rw (strip_prefix-append (text "sha256:") (hex (sha256 content)))
        (rw (bytes_ascii (hex (sha256 content)) r) (rw (p, q) (ground (arith, l, (doc content).0))))

  -- The digest that is computed of some content is a valid one, in normal form, and verifies the
  -- content, if the hash has 32 bytes.
  pub verify-sha256_digest :
      IsSha256 sha256
      → (normalize_sha256_digest (sha256_digest sha256 content) ≡ ok (sha256_digest sha256 content))
        × (verify_sha256_digest sha256 content (sha256_digest sha256 content) ≡ ok tt)
  verify-sha256_digest doc =
      let n : normalize_sha256_digest (sha256_digest sha256 content)
          ≡ ok (sha256_digest sha256 content) =
        rw sha256_digest-hex (normalize-hex doc) in
      (n, (verify_sha256_digest_iff (sha256_digest sha256 content)).1 n)
