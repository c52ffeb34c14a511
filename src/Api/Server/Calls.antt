-- ===== src/Api/Server/Calls.antt =====
-- What the three writing handlers do to the tables, as calls of the repository.
use agentenv_skills_hub.Api.Handlers.Reads.{Server}
use agentenv_skills_hub.Core.Service.{HubService, yank, publish}
use agentenv_skills_hub.Core.Service.Isolation.{publish_repo, yank_repo}
use agentenv_skills_hub.Core.Auth.{can_yank, can_publish, AuthContext}
use agentenv_skills_hub.Core.Error.{HubError}
use agentenv_skills_hub.Core.Model.{PublishSkillRequest, Visibility}
use agentenv_skills_hub.Index.Tables.{Db}
use agentenv_skills_hub.Api.Handlers.{auth_from_headers, HeaderMap}
use agentenv_skills_hub.Api.State.App.{with_repository, AppState, SemanticSearch}
use agentenv_skills_hub.Common.Text.{text_eq, Text}
use agentenv_skills_hub.Api.State.{
  RuntimeWebhookQueue, runtime_service, RuntimeArtifactStore, Runtime,
}
use agentenv_skills_hub.Index.Postgres
use agentenv_skills_hub.Index.Postgres.{insert_version, Session}
use agentenv_skills_hub.Common.State
use agentenv_skills_hub.Common.State.{Run, Run-cases, pure}
use agentenv_skills_hub.Api.Handlers.Writes.{
  or_public, or_by_api, calling, on_db, publish_version, yank_version, unyank_version, World,
}
use agentenv_skills_hub.Common.{
  ◌∙◌, Bool-cases, ap, Result-cases, ok, inr, inl, ◌⊎◌, ◌≡◌, Option, Bool, refl,
}

-- A server at the state that `from_env` makes where there is a database.
pub record IsDeployed {F32 : Type 0} (server : Server F32) : Type 0 where
  pub session : Session
  pub registry : Text
  pub allow_unsigned : Bool
  pub store : RuntimeArtifactStore
  pub search : Option (SemanticSearch F32)
  pub configured :
      server.state
      ≡ with_repository server.runtime
          (record { session = session })
          registry
          allow_unsigned
          store
          search

calling_state :
    {A B : Type 0} (call : Run World HubError A) (f : A → B) (world : World)
    → (State.◌>>=◌ (calling call) (λ a. pure (f a)) world).1 ≡ (call world).1
calling_state call f world = elim (Run-cases (call world)) [
  | inl (a, after, e) ↦ rw e refl
  | inr (error, after, e) ↦ rw e refl
]

on_db_state :
    {A B : Type 0} (call : Run Db HubError A) (f : A → B) (world : World)
    → (State.◌>>=◌ (on_db (calling call)) (λ a. pure (f a)) world).1 ≡ ((call world.0).1, world.1)
on_db_state call f (db, queue) = elim (Run-cases (call db)) [
  | inl (a, after, e) ↦ rw e refl
  | inr (error, after, e) ↦ rw e refl
]

module _ {F32 : Type 0} (runtime : Runtime) (session : Session) (registry : Text)
    (allow_unsigned : Bool) (store : RuntimeArtifactStore) (search : Option (SemanticSearch F32))
    (headers : HeaderMap) (namespace : Text) where
  abbrev service : HubService Db RuntimeWebhookQueue
  service = runtime_service runtime session store allow_unsigned

  abbrev deployed : AppState F32
  deployed =
      with_repository runtime (record { session = session }) registry allow_unsigned store search

  -- A publish leaves the tables, or publishes for the caller, who may.
  publish_version_tables :
      (name : Text) (visibility : Option Visibility) (request : PublishSkillRequest) (world : World)
      → ((publish_version runtime.crates deployed headers namespace name visibility request
            world).1.0
          ≡ world.0)
        ⊎ ((auth : AuthContext) × (auth_from_headers headers ≡ ok auth)
            × (can_publish auth namespace ≡ ok tt)
            × (subject : Text) × ((publish_version runtime.crates deployed headers namespace name
                  visibility request world).1.0
                ≡ (insert_version session namespace
                    (or_public visibility)
                    subject
                    request
                    world.0).1))
  unfolding publish_version
  publish_version_tables name visibility request world =
      elim (Bool-cases (text_eq request.manifest.name name)) [
        | inr e ↦ inl (rw e refl)
        | inl e ↦ elim (Result-cases (auth_from_headers headers)) [
          | inr (error, a) ↦ inl (rw (e, a) refl)
          | inl (auth, a) ↦ elim (Result-cases (can_publish auth namespace)) [
            | inr (error, p) ↦ inl (rw (e, a, p) refl)
            | inl (u, p) ↦
                elim (publish_repo runtime.crates service auth namespace (or_public visibility)
                  request world) [
                    | inl k ↦ inl (
                        rw (e, a, p)
                          (ap (λ (w : World). w.0)
                              (calling_state
                                (publish runtime.crates service auth namespace
                                  (or_public visibility) request)
                                (λ stored. (201, stored)) world)
                            ∙ k))
                    | inr (subject, _, k) ↦ inr (
                      auth,
                      a,
                      p,
                      subject,
                      rw (e, a, p)
                          (ap (λ (w : World). w.0)
                              (calling_state
                                (publish runtime.crates service auth namespace
                                  (or_public visibility) request)
                                (λ stored. (201, stored)) world)
                            ∙ k),
                    )
                  ]
          ]
        ]
      ]

  yank_version_tables :
      (name version : Text) (reason : Option Text) (world : World)
      → ((yank_version runtime.crates deployed headers namespace name version reason world).1.0
          ≡ world.0)
        ⊎ ((auth : AuthContext) × (auth_from_headers headers ≡ ok auth)
            × (can_yank auth namespace ≡ ok tt)
            × ((yank_version runtime.crates deployed headers namespace name version reason
                  world).1.0
                ≡ (Postgres.yank_version session namespace name version
                    (or_by_api reason)
                    world.0).1))
  unfolding yank_version
  yank_version_tables name version reason world = elim (Result-cases (auth_from_headers headers)) [
    | inr (error, a) ↦ inl (rw a refl)
    | inl (auth, a) ↦
        elim (yank_repo runtime.crates service auth namespace name version (or_by_api reason)
          world) [
            | inl k ↦ inl (
                rw a (
                  ap (λ (w : World). w.0)
                    (calling_state
                      (yank runtime.crates service auth namespace name version (or_by_api reason))
                      (λ _. 204) world)
                  ∙ k))
            | inr (p, k) ↦ inr (
              auth,
              a,
              p,
              rw a (
                  ap (λ (w : World). w.0)
                    (calling_state
                      (yank runtime.crates service auth namespace name version (or_by_api reason))
                      (λ _. 204) world)
                  ∙ k),
            )
          ]
  ]

  unyank_version_tables :
      (name version : Text) (world : World)
      → ((unyank_version runtime.crates deployed headers namespace name version world).1.0
          ≡ world.0)
        ⊎ ((auth : AuthContext) × (auth_from_headers headers ≡ ok auth)
            × (can_yank auth namespace ≡ ok tt)
            × ((unyank_version runtime.crates deployed headers namespace name version world).1.0
                ≡ (Postgres.unyank_version session namespace name version world.0).1))
  unfolding unyank_version
  unyank_version_tables name version world = elim (Result-cases (auth_from_headers headers)) [
    | inr (error, a) ↦ inl (rw a refl)
    | inl (auth, a) ↦ elim (Result-cases (can_yank auth namespace)) [
      | inr (error, p) ↦ inl (rw (a, p) refl)
      | inl (u, p) ↦ inr (
        auth,
        a,
        p,
        rw (a, p)
            (ap (λ (w : World). w.0)
              (on_db_state (Postgres.unyank_version session namespace name version) (λ _. 204)
                world)),
      )
    ]
  ]

-- The same, of a deployed server.
module _ {F32 : Type 0} (server : Server F32) (d : IsDeployed server) (headers : HeaderMap)
    (namespace name : Text) where
  pub publish_tables :
      (visibility : Option Visibility) (request : PublishSkillRequest) (world : World)
      → ((publish_version server.runtime.crates server.state headers namespace name visibility
            request world).1.0
          ≡ world.0)
        ⊎ ((auth : AuthContext) × (auth_from_headers headers ≡ ok auth)
            × (can_publish auth namespace ≡ ok tt)
            × (subject : Text) × ((publish_version server.runtime.crates server.state headers
                  namespace name visibility request world).1.0
                ≡ (insert_version d.session namespace
                    (or_public visibility)
                    subject
                    request
                    world.0).1))
  publish_tables visibility request world = rw d.configured (
      publish_version_tables server.runtime d.session d.registry d.allow_unsigned d.store d.search
        headers namespace name visibility request world)

  pub yank_tables :
      (version : Text) (reason : Option Text) (world : World)
      → ((yank_version server.runtime.crates server.state headers namespace name version reason
            world).1.0
          ≡ world.0)
        ⊎ ((auth : AuthContext) × (auth_from_headers headers ≡ ok auth)
            × (can_yank auth namespace ≡ ok tt)
            × ((yank_version server.runtime.crates server.state headers namespace name version
                  reason world).1.0
                ≡ (Postgres.yank_version d.session namespace name version
                    (or_by_api reason)
                    world.0).1))
  yank_tables version reason world = rw d.configured (
      yank_version_tables server.runtime d.session d.registry d.allow_unsigned d.store d.search
        headers namespace name version reason world)

  pub unyank_tables :
      (version : Text) (world : World)
      → ((unyank_version server.runtime.crates server.state headers namespace name version
            world).1.0
          ≡ world.0)
        ⊎ ((auth : AuthContext) × (auth_from_headers headers ≡ ok auth)
            × (can_yank auth namespace ≡ ok tt)
            × ((unyank_version server.runtime.crates server.state headers namespace name version
                  world).1.0
                ≡ (Postgres.unyank_version d.session namespace name version world.0).1))
  unyank_tables version world = rw d.configured (
      unyank_version_tables server.runtime d.session d.registry d.allow_unsigned d.store d.search
        headers namespace name version world)
