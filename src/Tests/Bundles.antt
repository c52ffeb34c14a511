-- ===== src/Tests/Bundles.antt =====
-- The theorem about Sigstore bundles at a concrete bundle.
use agentenv_skills_hub.Index.Json.{get_field}
use agentenv_skills_hub.Attestation.{
  contains_key, sigstore_bundle_media_type, verify_sigstore_bundle, Signing,
}
use agentenv_skills_hub.Tests.Api.{runtime}
use agentenv_skills_hub.Attestation.Bundles.{IsBundle, verify_sigstore_bundle_iff}
use agentenv_skills_hub.Core.Model.{object, field, string, null, end}
use agentenv_skills_hub.Common.Text.{text_eq, contains, text}
use agentenv_skills_hub.Common.{◌↔◌, ◌≡◌, ok, refl}

-- Every text is read as a bundle that has the fields, and nothing in them.
abbrev empty_bundles : Signing
empty_bundles = record runtime.signing {
  from_str = λ t. ok (
      object (
        field (text "mediaType") (string sigstore_bundle_media_type)
          (field (text "verificationMaterial") null (field (text "messageSignature") null end))));
}

verify_sigstore_bundle_iff_example :
    (verify_sigstore_bundle empty_bundles (text "{}") ≡ ok tt) ↔ IsBundle empty_bundles (text "{}")
verify_sigstore_bundle_iff_example = verify_sigstore_bundle_iff empty_bundles (text "{}")

empty_bundle_run : verify_sigstore_bundle empty_bundles (text "{}") ≡ ok tt
unfolding verify_sigstore_bundle contains contains_key get_field text_eq
empty_bundle_run = refl
