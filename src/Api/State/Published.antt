-- ===== src/Api/State/Published.antt =====
-- What publishing on the running server establishes.
use agentenv_skills_hub.Index.Postgres.Roundtrip.{insert_version-lookup}
use agentenv_skills_hub.Core.Service.Publish.{publish-ok}
use agentenv_skills_hub.Core.Service.{published}
use agentenv_skills_hub.Index.Postgres.Lookup.{lookup_version}
use agentenv_skills_hub.Index.Postgres.WellFormed.{IsWellFormed}
use agentenv_skills_hub.Index.Tables.{Db}
use agentenv_skills_hub.Storage.Fetched.{
  oci_fetch-IsVerified, s3_fetch-IsVerified, file_fetch-IsVerified,
}
use agentenv_skills_hub.Common.Text.{text, text_eq, Text}
use agentenv_skills_hub.Core.Service.{publish, WebhookEvent}
use agentenv_skills_hub.Core.Auth.{AuthContext}
use agentenv_skills_hub.Storage.{parse_artifact_pointer, sha256_digest, normalize_sha256_digest}
use agentenv_skills_hub.Core.Model.{
  SkillVersionRecord, PublishSkillRequest, Visibility, ArtifactPointer,
}
use agentenv_skills_hub.Index.Postgres.{Session}
use agentenv_skills_hub.Api.State.{
  hub_storage_error, fetch_from, runtime_service, RuntimeWebhookQueue, verify_artifact,
  fetch_verified, enqueue, RuntimeArtifactStore, Runtime,
}
use agentenv_skills_hub.Common.{
  map_err, Option-cases, some, ◌∷◌, ◌++◌, Bool, ◌≡◌, ok, arith, List, ℕ, >>=-eq-ok, Bool-cases, inl,
  inr, [],
}

module _ (runtime : Runtime) (store : RuntimeArtifactStore) (artifact : ArtifactPointer) where
  -- The digest of the content is the one that the pointer names.
  abbrev pub HasDigest : List ℕ → Type 0
  HasDigest content =
      normalize_sha256_digest artifact.digest ≡ ok (sha256_digest runtime.outside.sha256 content)

  fetch_from-HasDigest :
      (scheme : Text) (content : List ℕ)
      → fetch_from runtime store artifact scheme ≡ ok content
      → HasDigest content
  unfolding fetch_from
  fetch_from-HasDigest scheme content h = elim (Bool-cases (text_eq scheme (text "file"))) [
    | inl e ↦
        (file_fetch-IsVerified runtime.crates runtime.outside artifact.url artifact.digest content
          (ground arith)).1
    | inr e ↦ elim (Bool-cases (text_eq scheme (text "s3"))) [
      | inl f ↦ elim (Option-cases store.s3) [
        | inl k ↦ absurd (ground arith)
        | inr (s3, k) ↦
            (s3_fetch-IsVerified runtime.crates runtime.outside s3.endpoint artifact.url
              artifact.digest content (ground arith)).1
      ]
      | inr f ↦ elim (Option-cases store.oci) [
        | inl k ↦ absurd (ground arith)
        | inr (oci, k) ↦
            (oci_fetch-IsVerified runtime.crates runtime.outside oci.registry_host oci.base_url
              artifact.url artifact.digest content (ground arith)).1
      ]
    ]
  ]

  -- Whatever bytes the server's stores return have the digest that the pointer names.
  pub fetch_verified-HasDigest :
      (content : List ℕ) → fetch_verified runtime store artifact ≡ ok content → HasDigest content
  unfolding fetch_verified
  fetch_verified-HasDigest content h =
      let (pointer, _, fetched) =
        >>=-eq-ok
          (map_err (hub_storage_error runtime) (parse_artifact_pointer runtime.crates artifact.url))
          (λ url. fetch_from runtime store artifact url.scheme) h in
      fetch_from-HasDigest pointer.scheme content fetched

  fetched_of_verify_artifact :
      verify_artifact runtime store artifact ≡ ok tt
      → (content : List ℕ) × (fetch_verified runtime store artifact ≡ ok content)
  unfolding verify_artifact
  fetched_of_verify_artifact h =
      let (content, f, _) = >>=-eq-ok (fetch_verified runtime store artifact) (λ _. ok tt) h in
      (content, f)

module _ (runtime : Runtime) (session : Session) (store : RuntimeArtifactStore)
    (allow_unsigned : Bool) where
  pub queued_of_enqueue :
      (event : WebhookEvent) (queue queue' : RuntimeWebhookQueue)
      → enqueue event queue ≡ (ok tt, queue')
      → queue'.events ≡ queue.events ++ event ∷ []
  unfolding enqueue
  queued_of_enqueue event queue queue' h = ground arith

  -- A publish on the running server that succeeds has fetched bytes with the digest that was asked
  -- for, under which the version is now stored and found, and has queued one event, of the caller.
  -- The tables have their keys, and other sessions commit nothing in between.
  pub publish-HasDigest :
      (auth : AuthContext) (namespace : Text) (visibility : Visibility)
      (request : PublishSkillRequest) (db db' : Db) (queue queue' : RuntimeWebhookQueue)
      (stored : SkillVersionRecord)
      → IsWellFormed db
      → ((d : Db) → session.others d ≡ d)
      → publish runtime.crates
          (runtime_service runtime session store allow_unsigned)
          auth
          namespace
          visibility
          request
          (db, queue)
        ≡ (ok stored, (db', queue'))
      → ((content : List ℕ) × (fetch_verified runtime store request.artifact ≡ ok content)
          × HasDigest runtime store request.artifact content)
        × (stored.digest ≡ request.artifact.digest)
        × (lookup_version namespace request.manifest.name request.manifest.version db'
            ≡ some stored)
        × ((subject : Text) × (auth.subject ≡ some subject)
            × (queue'.events ≡ queue.events ++ published namespace subject stored ∷ []))
  publish-HasDigest auth namespace visibility request db db' queue queue' stored w quiet h =
      let (subject, admitted, inserted, queued) =
        publish-ok runtime.crates (runtime_service runtime session store allow_unsigned) auth
          namespace visibility request db db' queue queue' stored h in
      let (content, f) =
        fetched_of_verify_artifact runtime store request.artifact admitted.fetched in
      let (found, digest) =
        insert_version-lookup session namespace visibility subject request db db' stored w quiet
          inserted in
      (
        (content, f, fetch_verified-HasDigest runtime store request.artifact content f),
        digest,
        found,
        (subject, admitted.publisher, queued_of_enqueue _ queue queue' queued),
      )
