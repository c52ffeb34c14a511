-- ===== src/Api/State/Trusted.antt =====
-- What a trusted request has.
use agentenv_skills_hub.Attestation.{verify_ed25519}
use agentenv_skills_hub.Attestation.Laws.{verify_ed25519_iff, IsSigned}
use agentenv_skills_hub.Common.Text.{bytes, Text}
use agentenv_skills_hub.Core.Model.{PublishSkillRequest}
use agentenv_skills_hub.Api.State.{
  trust_error, verify_bundle, verify_pair, verify_trust, trust_message, Runtime,
}
use agentenv_skills_hub.Common.{
  Result-cases, map_err, ◌⊎◌, ◌∷◌, ◌++◌, ◌≡◌, ok, arith, List, ℕ, Option-cases, >>=-eq-ok, inl, inr,
  [], none, some,
}

module _ (runtime : Runtime) (request : PublishSkillRequest) where
  -- The signed message is the manifest as JSON, a bar, and the digest of the artifact.
  abbrev pub signed_message : List ℕ → List ℕ
  signed_message manifest = (manifest ++ b'|' ∷ []) ++ bytes request.artifact.digest

  pub record HasSignature : Type 0 where
    pub signature : Text
    pub public_key : Text
    pub manifest : List ℕ
    pub given : request.signature_ed25519 ≡ some signature
    pub key_given : request.public_key_ed25519 ≡ some public_key
    pub serialized : runtime.to_vec request.manifest ≡ ok manifest
    pub signed : IsSigned runtime.signing public_key signature (signed_message manifest)

  pair-HasSignature :
      (signature public_key : Text)
      → request.signature_ed25519 ≡ some signature
      → request.public_key_ed25519 ≡ some public_key
      → verify_pair runtime request (some signature) (some public_key) ≡ ok tt
      → HasSignature
  unfolding trust_message
  pair-HasSignature signature public_key s k h =
      let (message, t, v) =
        >>=-eq-ok (trust_message runtime request)
          (λ message.
            map_err (trust_error runtime)
              (verify_ed25519 runtime.signing public_key signature message))
          h in
      elim (Result-cases (runtime.to_vec request.manifest)) [
        | inl (manifest, m) ↦ record {
          signature = signature;
          public_key = public_key;
          manifest = manifest;
          given = s;
          key_given = k;
          serialized = m;
          signed =
              (verify_ed25519_iff runtime.signing public_key signature (signed_message manifest)).0
                (ground arith);
        }
        | inr (e, m) ↦ absurd (ground arith)
      ]

  -- A trusted request has an Ed25519 signature and key that verify its manifest and its digest, or
  -- neither of them; and a Sigstore bundle, if it has one, passes.
  pub verify_trust-HasSignature :
      verify_trust runtime request ≡ ok tt
      → (((request.signature_ed25519 ≡ none) × (request.public_key_ed25519 ≡ none)) ⊎ HasSignature)
        × (verify_bundle runtime request.sigstore_bundle ≡ ok tt)
  unfolding verify_trust
  verify_trust-HasSignature h =
      let (_, p, b) =
        >>=-eq-ok (verify_pair runtime request request.signature_ed25519 request.public_key_ed25519)
          (λ _. verify_bundle runtime request.sigstore_bundle) h in
      (
        elim (Option-cases request.signature_ed25519) [
          | inl s ↦ elim (Option-cases request.public_key_ed25519) [
            | inl k ↦ inl (s, k)
            | inr (key, k) ↦ absurd (ground (arith, rw (s, k) at p))
          ]
          | inr (signature, s) ↦ elim (Option-cases request.public_key_ed25519) [
            | inl k ↦ absurd (ground (arith, rw (s, k) at p))
            | inr (key, k) ↦ inr (pair-HasSignature signature key s k (rw (s, k) at p))
          ]
        ],
        b,
      )
