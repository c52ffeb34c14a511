-- ===== src/Attestation/Bundles.antt =====
-- Which Sigstore bundles pass.
use agentenv_skills_hub.Attestation.Laws.{passed_true}
use agentenv_skills_hub.Index.Json.{get_field}
use agentenv_skills_hub.Common.Text.{contains, text, Text}
use agentenv_skills_hub.Attestation.{
  Signing, verify_sigstore_bundle, contains_key, sigstore_bundle_media_type, as_object, as_str,
}
use agentenv_skills_hub.Core.Model.{Fields, Value, null, bool, number, string, array, object}
use agentenv_skills_hub.Common.{
  reject_if-eq-ok, ok_or-eq-ok, ap, ◌∙◌, map_err-eq-ok, refl, Bool-cases, ◌↔◌, >>=-eq-ok, ◌⊎◌, ◌≡◌,
  ◌&&◌, not, Option, Bool, none, some, ok, inl, inr, true, false,
}

object_of :
    (value : Value) (fields : Fields) → as_object value ≡ some fields → value ≡ object fields
object_of (object fs) fields h = cc
object_of null fields h = absurd (cc)
object_of (bool b) fields h = absurd (cc)
object_of (number n) fields h = absurd (cc)
object_of (string s) fields h = absurd (cc)
object_of (array vs) fields h = absurd (cc)

string_of : (value : Option Value) (s : Text) → as_str value ≡ some s → value ≡ some (string s)
string_of (some (string t)) s h = cc
string_of none s h = absurd (cc)
string_of (some null) s h = absurd (cc)
string_of (some (bool b)) s h = absurd (cc)
string_of (some (number n)) s h = absurd (cc)
string_of (some (array vs)) s h = absurd (cc)
string_of (some (object fs)) s h = absurd (cc)

either_key : (a b : Bool) → (not a && not b) ≡ false → (a ≡ true) ⊎ (b ≡ true)
either_key true b h = inl refl
either_key false true h = inr refl
either_key false false h = absurd (cc)

module _ (signing : Signing) (bundle_json : Text) where
  -- An object that is marked as a bundle, with verification material and something signed. What these
  -- fields hold is not looked at.
  pub record IsBundle : Type 0 where
    pub fields : Fields
    pub media_type : Text
    pub parses : signing.from_str bundle_json ≡ ok (object fields)
    pub typed : get_field (text "mediaType") fields ≡ some (string media_type)
    pub marked : contains sigstore_bundle_media_type media_type ≡ true
    pub material : contains_key (text "verificationMaterial") fields ≡ true
    pub signed :
        (contains_key (text "messageSignature") fields ≡ true)
        ⊎ (contains_key (text "dsseEnvelope") fields ≡ true)

  IsBundle-verify : IsBundle → verify_sigstore_bundle signing bundle_json ≡ ok tt
  unfolding verify_sigstore_bundle
  IsBundle-verify b =
      rw (b.parses, b.typed, b.marked, b.material)
        (elim b.signed [
          | inl m ↦ rw m refl
          | inr d ↦ elim (Bool-cases (contains_key (text "messageSignature") b.fields)) [
            | inl m ↦ rw m refl
            | inr m ↦ rw (m, d) refl
          ]
        ])

  verify-IsBundle : verify_sigstore_bundle signing bundle_json ≡ ok tt → IsBundle
  unfolding verify_sigstore_bundle
  verify-IsBundle h =
      let (value, a, h1) = >>=-eq-ok _ _ h in
      let (fs, b, h2) = >>=-eq-ok _ _ h1 in
      let (mt, c, h3) = >>=-eq-ok _ _ h2 in
      let (_, d, h4) = >>=-eq-ok _ _ h3 in
      let (_, e, h5) = >>=-eq-ok _ _ h4 in
      record {
        fields = fs;
        media_type = mt;
        parses = map_err-eq-ok _ _ a ∙ ap (λ v. ok v) (object_of value fs (ok_or-eq-ok _ _ b));
        typed = string_of (get_field (text "mediaType") fs) mt (ok_or-eq-ok _ _ c);
        marked = passed_true (contains sigstore_bundle_media_type mt) (reject_if-eq-ok _ _ d);
        material =
            passed_true (contains_key (text "verificationMaterial") fs) (reject_if-eq-ok _ _ e);
        signed =
            either_key (contains_key (text "messageSignature") fs)
              (contains_key (text "dsseEnvelope") fs) (reject_if-eq-ok _ _ h5);
      }

  -- A Sigstore bundle passes exactly if it is a JSON object whose media type contains that of a
  -- bundle, and that has verification material and a message signature or an envelope, whatever these
  -- hold: nothing is compared with the artifact.
  pub verify_sigstore_bundle_iff : (verify_sigstore_bundle signing bundle_json ≡ ok tt) ↔ IsBundle
  verify_sigstore_bundle_iff = (verify-IsBundle, IsBundle-verify)
