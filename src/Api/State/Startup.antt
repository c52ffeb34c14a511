-- ===== src/Api/State/Startup.antt =====
-- `AppState::from_env` of crates/hub-api/src/state.rs, which may fail after it has migrated the
-- database.
use agentenv_skills_hub.Api.State.App.{
  unwrap_or, with_repository, or_else, fixture, store_from_env, SemanticSearch,
  allow_unsigned_from_env, AppState, PgHubRepository,
}
use agentenv_skills_hub.Api.State.{Runtime}
use agentenv_skills_hub.Index.Migrations.{Catalog, Step, run_migrations}
use agentenv_skills_hub.Common.State.{Run, lift, pure, ◌>>=◌, ◌>>◌}
use agentenv_skills_hub.Common.{map_err, if◌then◌else◌, none, some, Option, Result}
use agentenv_skills_hub.Common.Text.{Text, text, text_eq}

-- Postgres, as it is met at the start: `connect` opens the pool, `fault` and `others` are what the
-- migrations meet, and `pgvector` is the search on the pool.
pub record Pool (F32 : Type 0) : Type 0 where
  pub connect : Text → Result Text PgHubRepository
  pub fault : Step → Option Text
  pub others : Catalog → Catalog
  pub pgvector : SemanticSearch F32

-- `std::env::var(…).ok()`
module _ (env : Text → Option Text) (runtime : Runtime) (unbuilt : Option Text) {F32 : Type 0}
    (pool : Pool F32) where
  abbrev search_kind : Option Text → Option (SemanticSearch F32)
  search_kind none = none
  search_kind (some kind) = if text_eq kind (text "pgvector") then some pool.pgvector else none

  abbrev connected : Option Text → Run Catalog Text (AppState F32)
  connected none = pure fixture
  connected (some database_url) = do
    repository ← lift (pool.connect database_url)
    run_migrations pool.fault pool.others
    store ← lift (map_err runtime.storage_text (store_from_env env runtime unbuilt))
    pure (
        with_repository runtime repository
          (unwrap_or (text "community") (env (text "HUB_REGISTRY_NAME")))
          (allow_unsigned_from_env env) store (search_kind (env (text "HUB_SEARCH_KIND"))))

  unfoldable pub from_env : Run Catalog Text (AppState F32)
  unfolding allow_unsigned_from_env store_from_env run_migrations
  from_env = connected (or_else (env (text "HUB_DATABASE_URL")) (env (text "DATABASE_URL")))
