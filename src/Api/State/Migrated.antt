-- ===== src/Api/State/Migrated.antt =====
-- What a server that has started with a database has done to it.
use agentenv_skills_hub.Common.State.{Run-cases}
use agentenv_skills_hub.Index.Migrations.Laws.{run_migrations-IsMigrated, IsMigrated}
use agentenv_skills_hub.Common.Apart.{Apart}
use agentenv_skills_hub.Api.State.App.{store_from_env, or_else, PgHubRepository, AppState}
use agentenv_skills_hub.Index.Migrations.{run_migrations, same_name, Catalog}
use agentenv_skills_hub.Api.State.{Runtime}
use agentenv_skills_hub.Common.Text.{text, Text}
use agentenv_skills_hub.Api.State.Startup.{Pool, from_env}
use agentenv_skills_hub.Common.{
  Result-cases, inr, inl, Option-cases, arith, none, some, ok, Result, ◌≡◌, Option,
}

module _ {F32 : Type 0} (env : Text → Option Text) (runtime : Runtime) (unbuilt : Option Text)
    (pool : Pool F32) (catalog after : Catalog) where
  ok_state :
      (a b : AppState F32) (c d : Catalog)
      → ◌≡◌ {A = Result Text (AppState F32) × Catalog} (ok a, c) (ok b, d)
      → (a ≡ b) × (c ≡ d)
  ok_state a b c d h = (cc, cc)

  -- A server that starts with a repository has migrated its database: every object of the script is
  -- there, as the script defines it, unless one of its name was there when the lock was taken. What
  -- was there then is unchanged, nothing else has been added, and each name of the script is taken by
  -- one object. No two objects had one name then.
  pub from_env-IsMigrated :
      (state : AppState F32) (repository : PgHubRepository)
      → Apart same_name (pool.others catalog)
      → from_env env runtime unbuilt pool catalog ≡ (ok state, after)
      → state.repository ≡ some repository
      → IsMigrated pool.fault pool.others (pool.others catalog) after
  unfolding from_env
  from_env-IsMigrated state repository apart h running =
      elim (Option-cases (or_else (env (text "HUB_DATABASE_URL")) (env (text "DATABASE_URL")))) [
        | inl e ↦ absurd (without e)
        | inr (url, e) ↦ elim (Result-cases (pool.connect url)) [
          | inr (x, c) ↦ absurd (ground arith)
          | inl (opened, c) ↦ elim (Run-cases (run_migrations pool.fault pool.others catalog)) [
            | inr (x, migrated, m) ↦ absurd (ground arith)
            | inl (u, migrated, m) ↦ elim (Result-cases (store_from_env env runtime unbuilt)) [
              | inr (x, s) ↦ absurd (ground arith)
              | inl (store, s) ↦
                  rw⁻¹ (ok_state _ state migrated after (rw (e, c, m, s) at h)).1
                    (run_migrations-IsMigrated pool.fault pool.others catalog migrated apart m)
            ]
          ]
        ]
      ]
    where
      without : or_else (env (text "HUB_DATABASE_URL")) (env (text "DATABASE_URL")) ≡ none → ⊥
      without e = ground arith
