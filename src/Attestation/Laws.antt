-- ===== src/Attestation/Laws.antt =====
-- When a signature passes.
use agentenv_skills_hub.Common.Text.{Text}
use agentenv_skills_hub.Attestation.{verify_ed25519, Signing}
use agentenv_skills_hub.Common.{
  false, ◌==◌, not, Bool, reject_if-eq-ok, map_err-eq-ok, >>=-eq-ok, ◌≡◌, ok, true, List, ℕ, length,
  arith, ◌↔◌,
}

passed_eq : (n m : ℕ) → not (n == m) ≡ false → n ≡ m
passed_eq n m h = ground arith

pub passed_true : (b : Bool) → not b ≡ false → b ≡ true
passed_true b h = ground arith

module _ (signing : Signing) (public_key_hex signature_hex : Text) (message : List ℕ) where
  -- A key of 32 bytes and a signature of 64 bytes that verify the message.
  pub record IsSigned : Type 0 where
    pub public_key : List ℕ
    pub signature : List ℕ
    pub verifying_key : signing.VerifyingKey
    pub key_decodes : signing.decode public_key_hex ≡ ok public_key
    pub key_length : length public_key ≡ 32
    pub key_valid : signing.from_bytes public_key ≡ ok verifying_key
    pub signature_decodes : signing.decode signature_hex ≡ ok signature
    pub signature_length : length signature ≡ 64
    pub verifies : signing.verify verifying_key message signature ≡ true

  IsSigned-verify_ed25519 :
      IsSigned → verify_ed25519 signing public_key_hex signature_hex message ≡ ok tt
  unfolding verify_ed25519
  IsSigned-verify_ed25519 s = ground (
    arith, s.key_decodes, s.key_length, s.key_valid, s.signature_decodes, s.signature_length,
    s.verifies,
  )

  verify_ed25519-IsSigned :
      verify_ed25519 signing public_key_hex signature_hex message ≡ ok tt → IsSigned
  unfolding verify_ed25519
  verify_ed25519-IsSigned h =
      let (pk, a, h1) = >>=-eq-ok _ _ h in
      let (_, b, h2) = >>=-eq-ok _ _ h1 in
      let (key, c, h3) = >>=-eq-ok _ _ h2 in
      let (sig, d, h4) = >>=-eq-ok _ _ h3 in
      let (_, e, h5) = >>=-eq-ok _ _ h4 in
      record {
        public_key = pk;
        signature = sig;
        verifying_key = key;
        key_decodes = map_err-eq-ok _ _ a;
        key_length = passed_eq (length pk) 32 (reject_if-eq-ok _ _ b);
        key_valid = map_err-eq-ok _ _ c;
        signature_decodes = map_err-eq-ok _ _ d;
        signature_length = passed_eq (length sig) 64 (reject_if-eq-ok _ _ e);
        verifies = passed_true (signing.verify key message sig) (reject_if-eq-ok _ _ h5);
      }

  -- An Ed25519 signature passes exactly if key and signature decode to 32 and 64 bytes, the key is
  -- valid, and the signature verifies the message.
  pub verify_ed25519_iff :
      (verify_ed25519 signing public_key_hex signature_hex message ≡ ok tt) ↔ IsSigned
  verify_ed25519_iff = (verify_ed25519-IsSigned, IsSigned-verify_ed25519)
