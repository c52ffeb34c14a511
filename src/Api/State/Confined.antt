-- ===== src/Api/State/Confined.antt =====
-- Which part of the network the server reads.
use agentenv_skills_hub.Index.Tables.{Db}
use agentenv_skills_hub.Core.Auth.{AuthContext}
use agentenv_skills_hub.Index.Postgres.{Session}
use agentenv_skills_hub.Core.Service.{publish}
use agentenv_skills_hub.Storage.{parse_artifact_pointer}
use agentenv_skills_hub.Common.Text.{text, text_eq, Text}
use agentenv_skills_hub.Storage.Confined.{
  KeepsOrigin, AgreeAt, HaveSameFiles, file_fetch_confined, s3_fetch_confined, oci_fetch_confined,
}
use agentenv_skills_hub.Storage.Stores.{Outside, S3ArtifactStore, OciArtifactStore}
use agentenv_skills_hub.Core.Crates.{Url}
use agentenv_skills_hub.Core.Model.{Visibility, PublishSkillRequest, ArtifactPointer}
use agentenv_skills_hub.Api.State.{
  runtime_service, trust_message, verify_trust, verify_artifact, Runtime, RuntimeArtifactStore,
  RuntimeWebhookQueue, fetch_verified, fetch_from,
}
use agentenv_skills_hub.Common.{
  Bool, some, refl, inl, inr, ◌≡◌, Bool-cases, Result-cases, Option-cases,
}

module _ (runtime : Runtime) (store : RuntimeArtifactStore) (there : Outside) where
  -- The other world has the same files, and its network answers the same at the schemes and hosts
  -- of the endpoints that are configured.
  pub record AgreesAtEndpoints : Type 0 where
    pub files : HaveSameFiles runtime.outside there
    pub s3 :
        (s : S3ArtifactStore) (base : Url)
        → store.s3 ≡ some s
        → s.endpoint ≡ some base
        → AgreeAt runtime.outside there base
    pub oci :
        (o : OciArtifactStore) (base : Url)
        → store.oci ≡ some o
        → o.base_url ≡ some base
        → AgreeAt runtime.outside there base

  abbrev pub elsewhere : Runtime
  elsewhere = record runtime { outside = there }

  module _ (keeps : KeepsOrigin runtime.outside) (agree : AgreesAtEndpoints) where
    fetch_from_confined :
        (artifact : ArtifactPointer) (scheme : Text)
        → fetch_from runtime store artifact scheme ≡ fetch_from elsewhere store artifact scheme
    unfolding fetch_from
    fetch_from_confined artifact scheme = elim (Bool-cases (text_eq scheme (text "file"))) [
      | inl f ↦
          rw
            (
              f,
              file_fetch_confined runtime.crates runtime.outside there keeps agree.files
                  artifact.url artifact.digest,
            )
            refl
      | inr f ↦ elim (Bool-cases (text_eq scheme (text "s3"))) [
        | inl t ↦ elim (Option-cases store.s3) [
          | inl n ↦ rw (f, t, n) refl
          | inr (s, e) ↦
              rw
                (
                  f,
                  t,
                  e,
                  s3_fetch_confined runtime.crates runtime.outside there keeps agree.files
                      artifact.url artifact.digest s.endpoint (λ base b. agree.s3 s base e b),
                )
                refl
        ]
        | inr t ↦ elim (Bool-cases (text_eq scheme (text "oci"))) [
          | inr u ↦ rw (f, t, u) refl
          | inl u ↦ elim (Option-cases store.oci) [
            | inl n ↦ rw (f, t, u, n) refl
            | inr (o, e) ↦
                rw
                  (
                    f,
                    t,
                    u,
                    e,
                    oci_fetch_confined runtime.crates runtime.outside there keeps agree.files
                        artifact.url artifact.digest o.registry_host o.base_url
                        (λ base b. agree.oci o base e b),
                  )
                  refl
          ]
        ]
      ]
    ]

    pub fetch_verified_confined :
        (artifact : ArtifactPointer)
        → fetch_verified runtime store artifact ≡ fetch_verified elsewhere store artifact
    unfolding fetch_verified
    fetch_verified_confined artifact =
        elim (Result-cases (parse_artifact_pointer runtime.crates artifact.url)) [
          | inr (error, e) ↦ rw e refl
          | inl (url, e) ↦ rw (e, fetch_from_confined artifact url.scheme) refl
        ]

    verify_artifact_confined :
        (artifact : ArtifactPointer)
        → verify_artifact runtime store artifact ≡ verify_artifact elsewhere store artifact
    unfolding verify_artifact
    verify_artifact_confined artifact = rw (fetch_verified_confined artifact) refl

    trust_elsewhere :
        (request : PublishSkillRequest)
        → verify_trust runtime request ≡ verify_trust elsewhere request
    unfolding verify_trust trust_message
    trust_elsewhere request = refl

    -- What the server fetches, and what a publish does and answers, whatever pointer the caller
    -- gives, depends on nothing of the network but what answers at the scheme and the host of the S3
    -- endpoint and the OCI base URL that are configured, at any path: another network that answers
    -- the same there makes no difference. The files are the same, and setting the path of a URL keeps
    -- its scheme and host.
    pub publish_confined :
        (session : Session) (allow_unsigned : Bool) (auth : AuthContext) (namespace : Text)
        (visibility : Visibility) (request : PublishSkillRequest) (world : Db × RuntimeWebhookQueue)
        → (fetch_verified runtime store request.artifact
            ≡ fetch_verified elsewhere store request.artifact)
          × (publish runtime.crates
                (runtime_service runtime session store allow_unsigned)
                auth
                namespace
                visibility
                request
                world
              ≡ publish runtime.crates
                  (runtime_service elsewhere session store allow_unsigned)
                  auth
                  namespace
                  visibility
                  request
                  world)
    unfolding publish
    publish_confined session allow_unsigned auth namespace visibility request world = (
      fetch_verified_confined request.artifact,
      rw (verify_artifact_confined request.artifact, trust_elsewhere request) refl,
    )
