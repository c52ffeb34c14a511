-- ===== src/Api/State/Signed.antt =====
-- What a server that the environment configures publishes.
use agentenv_skills_hub.Common.State.{Run-cases}
use agentenv_skills_hub.Index.Migrations.{run_migrations, Catalog}
use agentenv_skills_hub.Api.State.Startup.{Pool, from_env}
use agentenv_skills_hub.Core.Service.Publish.{publish-ok}
use agentenv_skills_hub.Core.Auth.{AuthContext}
use agentenv_skills_hub.Index.Tables.{Db}
use agentenv_skills_hub.Api.State.Trusted.{verify_trust-HasSignature, HasSignature}
use agentenv_skills_hub.Common.{
  false, ◌∙◌, sym, Result-cases, Option-cases, arith, inr, some, inl, is_some, ok, true, ◌⊎◌, ◌≡◌,
  Result, Option,
}
use agentenv_skills_hub.Core.Model.{SkillVersionRecord, Visibility, PublishSkillRequest}
use agentenv_skills_hub.Common.Text.{text, Text}
use agentenv_skills_hub.Api.State.App.{
  allow_unsigned_from_env, or_else, AppState, PgHubRepository, store_from_env,
}
use agentenv_skills_hub.Api.State.{
  runtime_service, RuntimeArtifactStore, RuntimeWebhookQueue, Runtime, verify_bundle, verify_trust,
}
use agentenv_skills_hub.Core.Service.{publish, HubService, has_signature}

-- The request has a signature and a key that verify it, or a Sigstore bundle, and the bundle passes.
abbrev pub IsTrusted : Runtime → PublishSkillRequest → Type 0
IsTrusted runtime request =
    (HasSignature runtime request ⊎ (is_some request.sigstore_bundle ≡ true))
    × (verify_bundle runtime request.sigstore_bundle ≡ ok tt)

IsTrusted-of :
    (runtime : Runtime) (request : PublishSkillRequest)
    → has_signature request ≡ true
    → verify_trust runtime request ≡ ok tt
    → IsTrusted runtime request
unfolding has_signature
IsTrusted-of runtime request s t =
    let (pair, bundle) = verify_trust-HasSignature runtime request t in
    (elim pair [ inl (e, f) ↦ inr (ground arith) | inr signed ↦ inl signed ], bundle)

module _ {F32 : Type 0} (env : Text → Option Text) (runtime : Runtime) (unbuilt : Option Text)
    (pool : Pool F32) (catalog after : Catalog) (state : AppState F32)
    (service : HubService Db RuntimeWebhookQueue)
    (configured : from_env env runtime unbuilt pool catalog ≡ (ok state, after))
    (running : state.service ≡ some service) where
  -- The service of the state is that of `runtime_service`.
  service_of_env :
      (repository : PgHubRepository) × (store : RuntimeArtifactStore) × (service
        ≡ runtime_service runtime repository.session store (allow_unsigned_from_env env))
  unfolding from_env
  service_of_env =
      elim (Option-cases (or_else (env (text "HUB_DATABASE_URL")) (env (text "DATABASE_URL")))) [
        | inl e ↦ absurd (ground arith)
        | inr (url, e) ↦ elim (Result-cases (pool.connect url)) [
          | inr (x, c) ↦ absurd (ground arith)
          | inl (repository, c) ↦ elim (Run-cases (run_migrations pool.fault pool.others catalog)) [
            | inr (x, migrated, m) ↦ absurd (ground arith)
            | inl (u, migrated, m) ↦ elim (Result-cases (store_from_env env runtime unbuilt)) [
              | inr (x, s) ↦ absurd (ground arith)
              | inl (store, s) ↦ (
                repository,
                store,
                some_inj service _
                    (sym running ∙ sym (ok_service _ state _ _ (rw (e, c, m, s) at configured))),
              )
            ]
          ]
        ]
      ]
    where
      some_inj : (a b : HubService Db RuntimeWebhookQueue) → some a ≡ some b → a ≡ b
      some_inj a b h = cc

      ok_service :
          (a b : AppState F32) (c d : Catalog)
          → ◌≡◌ {A = Result Text (AppState F32) × Catalog} (ok a, c) (ok b, d)
          → a.service ≡ b.service
      ok_service a b c d h = ground arith

  -- A server whose environment does not allow unsigned artifacts publishes no request without a
  -- signature and a key that verify it, or a Sigstore bundle that passes.
  pub from_env-IsTrusted :
      (auth : AuthContext) (namespace : Text) (visibility : Visibility)
      (request : PublishSkillRequest) (stored : SkillVersionRecord) (db db' : Db)
      (queue queue' : RuntimeWebhookQueue)
      → allow_unsigned_from_env env ≡ false
      → publish runtime.crates service auth namespace visibility request (db, queue)
        ≡ (ok stored, (db', queue'))
      → IsTrusted runtime request
  from_env-IsTrusted auth namespace visibility request stored db db' queue queue' strict h =
      let (repository, store, e) = service_of_env in
      let (subject, admitted, _, _) =
        publish-ok runtime.crates
          (runtime_service runtime repository.session store (allow_unsigned_from_env env)) auth
          namespace visibility request db db' queue queue' stored (rw e at h) in
      IsTrusted-of runtime request
        (elim admitted.signed [ inl allowed ↦ absurd (ground arith) | inr signed ↦ signed ])
        admitted.trusted
