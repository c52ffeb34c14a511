-- ===== src/Tests/Api.antt =====
-- The theorems about hub-attestation and hub-api at a concrete server.
use agentenv_skills_hub.Api.Handlers.{HeaderMap}
use agentenv_skills_hub.Common.{
  if◌then◌else◌, [], ◌∷◌, ok, ◌≡◌, refl, ◌↔◌, true, false, List, ℕ, ◌++◌, none, some,
}
use agentenv_skills_hub.Tests.Storage.{outside, repeat, digest, storage_code}
use agentenv_skills_hub.Tests.Fixtures.{crates, publisher_auth, request}
use agentenv_skills_hub.Index.Postgres.Lookup.{lookup_version}
use agentenv_skills_hub.Attestation.Laws.{verify_ed25519_iff, IsSigned}
use agentenv_skills_hub.Common.Text.{Text, bytes, text_eq, text}
use agentenv_skills_hub.Index.Postgres.{version_row, new_record, skill_row}
use agentenv_skills_hub.Api.State.Published.{publish-HasDigest, HasDigest}
use agentenv_skills_hub.Core.Service.{published, publish}
use agentenv_skills_hub.Tests.Index.{empty_db-IsWellFormed, empty_db, calm_session, index_code}
use agentenv_skills_hub.Api.State.{
  enqueue, trust_message, verify_trust, verify_artifact, fetch_from, runtime_service,
  fetch_verified, RuntimeWebhookQueue, RuntimeArtifactStore, Runtime,
}
use agentenv_skills_hub.Index.Tables.{Db}
use agentenv_skills_hub.Attestation.{verify_ed25519, Signing}
use agentenv_skills_hub.Core.Model.{null, PublishSkillRequest, public}

-- The key is written `bb`; every signature of 64 bytes passes.
abbrev signing : Signing
signing = record {
  VerifyingKey = List ℕ;
  decode = λ t. if text_eq t (text "bb") then ok (repeat 32 7) else ok (repeat 64 9);
  from_bytes = λ b. ok b;
  verify = λ key message signature. true;
  from_str = λ t. ok null;
}

verify_ed25519_iff_example :
    (verify_ed25519 signing (text "bb") (text "aa") (1 ∷ []) ≡ ok tt)
    ↔ IsSigned signing (text "bb") (text "aa") (1 ∷ [])
verify_ed25519_iff_example = verify_ed25519_iff signing (text "bb") (text "aa") (1 ∷ [])

abbrev pub runtime : Runtime
runtime = record {
  crates = crates;
  outside = outside;
  signing = signing;
  storage_text = λ e. [];
  attestation_text = λ e. [];
  to_vec = λ m. ok (bytes m.name);
  value_text = λ v. [];
}

abbrev pub store : RuntimeArtifactStore
store = record { s3 = none; oci = none }

abbrev pub signed_request : PublishSkillRequest
signed_request = record request { artifact = record request.artifact { digest = digest } }

unfoldable pub api_code : Unit {0}
unfolding index_code storage_code fetch_verified fetch_from verify_artifact verify_trust
    trust_message verify_ed25519 enqueue
api_code = tt

abbrev pub empty_queue : RuntimeWebhookQueue
empty_queue = record { events = []; is_poisoned = false }

abbrev pub full_queue : RuntimeWebhookQueue
full_queue = record empty_queue {
  events =
      published (text "acme") (text "ann") (new_record calm_session (text "acme") signed_request)
      ∷ [];
}

abbrev pub published_db : Db
published_db = record {
  skills = skill_row calm_session (text "acme") public signed_request ∷ [];
  skill_versions = version_row calm_session 1 (text "ann") signed_request ∷ [];
}

server_run :
    publish crates
      (runtime_service runtime calm_session store false)
      publisher_auth
      (text "acme")
      public
      signed_request
      (empty_db, empty_queue)
    ≡ (ok (new_record calm_session (text "acme") signed_request), (published_db, full_queue))
unfolding api_code
server_run = refl

publish-HasDigest_example :
    ((bs : List ℕ) × (fetch_verified runtime store signed_request.artifact ≡ ok bs)
      × HasDigest runtime store signed_request.artifact bs)
    × ((new_record calm_session (text "acme") signed_request).digest
        ≡ signed_request.artifact.digest)
    × (lookup_version
          (text "acme")
          signed_request.manifest.name
          signed_request.manifest.version
          published_db
        ≡ some (new_record calm_session (text "acme") signed_request))
    × ((subject : Text) × (publisher_auth.subject ≡ some subject)
        × (full_queue.events
            ≡ empty_queue.events
              ++ published
                  (text "acme")
                  subject
                  (new_record calm_session (text "acme") signed_request)
                ∷ []))
publish-HasDigest_example =
    publish-HasDigest runtime calm_session store false publisher_auth (text "acme") public
      signed_request empty_db published_db empty_queue full_queue
      (new_record calm_session (text "acme") signed_request) empty_db-IsWellFormed (λ d. refl)
      server_run

trust_run : verify_trust runtime signed_request ≡ ok tt
unfolding api_code
trust_run = refl

abbrev pub headers : HeaderMap
headers name =
    if text_eq name (text "x-agentenv-scopes") then some (ok (text "skills:publish")) else none

pub no_subject : headers (text "x-agentenv-subject") ≡ none
unfolding text_eq
no_subject = refl
