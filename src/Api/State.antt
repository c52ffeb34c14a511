-- ===== src/Api/State.antt =====
-- crates/hub-api/src/state.rs: the implementations of the traits of hub-core that the server runs.
-- `Runtime` holds what they take from crates: the parsers and stores' world, the signature crates,
-- serde_json, and the `Display` of their errors.
pub mod App
pub mod Startup
pub mod Migrated
pub mod Lawful
pub mod Signed
pub mod Published
pub mod Trusted
pub mod Confined
use agentenv_skills_hub.Index.Tables.{Db}
use agentenv_skills_hub.Common.State.{Run}
use agentenv_skills_hub.Storage.Stores.{
  OciArtifactStore, S3ArtifactStore, oci_fetch, s3_fetch, file_fetch, Outside,
}
use agentenv_skills_hub.Core.Error.{
  database, trust_verification, artifact_verification, HubError, HubResult,
}
use agentenv_skills_hub.Core.Crates.{Url, Crates}
use agentenv_skills_hub.Storage.{parse_artifact_pointer, StorageError}
use agentenv_skills_hub.Attestation.{
  verify_ed25519, verify_sigstore_bundle, Signing, AttestationError,
}
use agentenv_skills_hub.Core.Model.{SkillManifest, Value, ArtifactPointer, PublishSkillRequest}
use agentenv_skills_hub.Index.Postgres.{yank_version, insert_version, Session}
use agentenv_skills_hub.Common.Text.{text_eq, text, Text, bytes}
use agentenv_skills_hub.Core.Service.{HubRepository, WebhookEvent, HubService}
use agentenv_skills_hub.Common.{
  ok_or, ◌>>=◌, ◌>>◌, none, some, [], ◌∷◌, ◌++◌, Result, map_err, if◌then◌else◌, ℕ, Bool, Option,
  List, ok, err,
}
use agentenv_skills_hub.Core.Service

pub record RuntimeArtifactStore : Type 0 where
  pub s3 : Option S3ArtifactStore
  pub oci : Option OciArtifactStore

-- `storage_text` and `attestation_text` are `to_string` of the two error types, `to_vec` and
-- `value_text` the two printers of serde_json.
pub record Runtime : Type 1 where
  pub crates : Crates
  pub outside : Outside
  pub signing : Signing
  pub storage_text : StorageError → Text
  pub attestation_text : AttestationError → Text
  pub to_vec : SkillManifest → Result Text (List ℕ)
  pub value_text : Value → Text

module _ (runtime : Runtime) where
  abbrev pub hub_storage_error : StorageError → HubError
  hub_storage_error source = artifact_verification (runtime.storage_text source)

  -- The match on the scheme.
  unfoldable pub fetch_from : RuntimeArtifactStore → ArtifactPointer → Text → HubResult (List ℕ)
  fetch_from store artifact scheme =
      if text_eq scheme (text "file")
      then map_err hub_storage_error
          (file_fetch runtime.crates runtime.outside artifact.url artifact.digest)
      else if text_eq scheme (text "s3")
      then (do
        s3 ← ok_or (artifact_verification (text "S3 storage endpoint is not configured")) store.s3
        map_err hub_storage_error
            (s3_fetch runtime.crates runtime.outside s3.endpoint artifact.url artifact.digest))
      else if text_eq scheme (text "oci")
      then (do
        oci ←
            ok_or (artifact_verification (text "OCI storage endpoint is not configured")) store.oci
        map_err hub_storage_error (
            oci_fetch runtime.crates runtime.outside oci.registry_host oci.base_url artifact.url
              artifact.digest))
      else err
          (artifact_verification (text "unsupported artifact scheme `" ++ (scheme ++ text "`")))

  unfoldable pub fetch_verified : RuntimeArtifactStore → ArtifactPointer → HubResult (List ℕ)
  unfolding fetch_from
  fetch_verified store artifact = do
    pointer ← map_err hub_storage_error (parse_artifact_pointer runtime.crates artifact.url)
    fetch_from store artifact pointer.scheme

  unfoldable pub verify_artifact : RuntimeArtifactStore → ArtifactPointer → HubResult Unit
  unfolding fetch_verified
  verify_artifact store artifact = do content ← fetch_verified store artifact; ok tt

  unfoldable pub trust_message : PublishSkillRequest → HubResult (List ℕ)
  unfolding bytes
  trust_message request = do
    message ←
        map_err
          (λ source. trust_verification (text "failed to serialize trust message: " ++ source))
          (runtime.to_vec request.manifest)
    ok ((message ++ b'|' ∷ []) ++ bytes request.artifact.digest)

  abbrev pub trust_error : AttestationError → HubError
  trust_error source = trust_verification (runtime.attestation_text source)

  abbrev pub verify_pair : PublishSkillRequest → Option Text → Option Text → HubResult Unit
  verify_pair request (some signature) (some public_key) = do
    message ← trust_message request
    map_err trust_error (verify_ed25519 runtime.signing public_key signature message)
  verify_pair request none none = ok tt
  verify_pair request _ _ =
      err (trust_verification (text "Ed25519 signature and public key must be supplied together"))

  abbrev pub verify_bundle : Option Value → HubResult Unit
  verify_bundle none = ok tt
  verify_bundle (some bundle) =
      map_err trust_error (verify_sigstore_bundle runtime.signing (runtime.value_text bundle))

  unfoldable pub verify_trust : PublishSkillRequest → HubResult Unit
  unfolding trust_message
  verify_trust request = do
    verify_pair request request.signature_ed25519 request.public_key_ed25519
    verify_bundle request.sigstore_bundle

-- The queue is the vector behind the lock; a lock is poisoned when a thread panicked with it.
pub record RuntimeWebhookQueue : Type 0 where
  pub events : List WebhookEvent
  pub is_poisoned : Bool

unfoldable pub enqueue : WebhookEvent → Run RuntimeWebhookQueue HubError Unit
enqueue event queue =
    if queue.is_poisoned
    then (err (database (text "webhook event queue lock poisoned")), queue)
    else (ok tt, record queue { events = queue.events ++ event ∷ [] })

-- `impl HubRepository for PgHubRepository`, at a session.
abbrev pub pg_repository : Session → HubRepository Db
pg_repository session = record {
  insert_version = insert_version session;
  yank_version = yank_version session;
}

-- `HubService::new(…).with_allow_unsigned(…)` of `AppState::with_repository`.
abbrev pub runtime_service :
    Runtime → Session → RuntimeArtifactStore → Bool → HubService Db RuntimeWebhookQueue
runtime_service runtime session store allow_unsigned =
    Service.with_allow_unsigned
      (Service.new (pg_repository session)
        (record { verify_artifact = verify_artifact runtime store })
        (record { verify_trust = verify_trust runtime }) (record { enqueue = enqueue }))
      allow_unsigned
