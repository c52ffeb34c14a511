-- ===== src/Attestation.antt =====
-- crates/hub-attestation. The crates hex, ed25519-dalek and serde_json are the record `Signing`; their
-- errors are kept as their messages.
pub mod Laws
pub mod Bundles
use agentenv_skills_hub.Index.Json.{get_field}
use agentenv_skills_hub.Common.Text.{text, Text, contains}
use agentenv_skills_hub.Common.{
  Result, ℕ, Bool, not, ◌&&◌, ◌==◌, Option, none, some, List, map_err, ok_or, reject_if, ◌>>=◌,
  ◌>>◌, ok, err, length, is_some,
}
use agentenv_skills_hub.Core.Model.{string, Fields, Value, object}

pub data AttestationError : Type 0 where
  invalid_public_key_hex : (source : Text) → AttestationError
  invalid_signature_hex : (source : Text) → AttestationError
  invalid_public_key_length : (actual : ℕ) → AttestationError
  invalid_signature_length : (actual : ℕ) → AttestationError
  invalid_public_key : (source : Text) → AttestationError
  invalid_signature : AttestationError
  invalid_sigstore_json : (source : Text) → AttestationError
  invalid_sigstore_bundle : (reason : Text) → AttestationError

pub record Signing : Type 1 where
  pub VerifyingKey : Type 0
  pub decode : Text → Result Text (List ℕ)
  pub from_bytes : List ℕ → Result Text VerifyingKey
  pub verify : VerifyingKey → (message signature : List ℕ) → Bool
  pub from_str : Text → Result Text Value

abbrev pub as_object : Value → Option Fields
as_object (object fs) = some fs
as_object _ = none

abbrev pub as_str : Option Value → Option Text
as_str (some (string s)) = some s
as_str _ = none

unfoldable pub contains_key : Text → Fields → Bool
unfolding get_field
contains_key key fields = is_some (get_field key fields)

abbrev pub sigstore_bundle_media_type : Text
sigstore_bundle_media_type = text "application/vnd.dev.sigstore.bundle+json"

module _ (signing : Signing) where
  unfoldable pub verify_ed25519 : Text → Text → List ℕ → Result AttestationError Unit
  verify_ed25519 public_key_hex signature_hex message = do
    public_key ← map_err invalid_public_key_hex (signing.decode public_key_hex)
    reject_if (not (length public_key == 32)) (invalid_public_key_length (length public_key))
    verifying_key ← map_err invalid_public_key (signing.from_bytes public_key)
    signature ← map_err invalid_signature_hex (signing.decode signature_hex)
    reject_if (not (length signature == 64)) (invalid_signature_length (length signature))
    reject_if (not (signing.verify verifying_key message signature)) invalid_signature

  unfoldable pub verify_sigstore_bundle : Text → Result AttestationError Unit
  unfolding contains get_field contains_key
  verify_sigstore_bundle bundle_json = do
    value ← map_err invalid_sigstore_json (signing.from_str bundle_json)
    bundle ← ok_or (invalid_sigstore_bundle (text "bundle must be a JSON object")) (as_object value)
    media_type ←
        ok_or (invalid_sigstore_bundle (text "mediaType is required"))
          (as_str (get_field (text "mediaType") bundle))
    reject_if (not (contains sigstore_bundle_media_type media_type))
        (invalid_sigstore_bundle (text "mediaType must be a Sigstore bundle"))
    reject_if (not (contains_key (text "verificationMaterial") bundle))
        (invalid_sigstore_bundle (text "verificationMaterial is required"))
    reject_if
        (not (contains_key (text "messageSignature") bundle)
          && not (contains_key (text "dsseEnvelope") bundle))
        (invalid_sigstore_bundle (text "messageSignature or dsseEnvelope is required"))
