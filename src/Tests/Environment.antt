-- ===== src/Tests/Environment.antt =====
-- The theorem about the configured server at a concrete environment.
use agentenv_skills_hub.Index.Migrations.Laws.{IsMigrated}
use agentenv_skills_hub.Api.State.Migrated.{from_env-IsMigrated}
use agentenv_skills_hub.Index.Migrations.{run_migrations, Catalog}
use agentenv_skills_hub.Api.State.Startup.{Pool, from_env}
use agentenv_skills_hub.Api.State.Signed.{from_env-IsTrusted, IsTrusted}
use agentenv_skills_hub.Api.State.App.{
  allow_unsigned_from_env, store_from_env, AppState, with_repository,
}
use agentenv_skills_hub.Api.State.{runtime_service}
use agentenv_skills_hub.Core.Service.{publish}
use agentenv_skills_hub.Tests.Api.{
  runtime, store, signed_request, api_code, empty_queue, full_queue, published_db,
}
use agentenv_skills_hub.Tests.Index.{calm_session, empty_db}
use agentenv_skills_hub.Tests.Fixtures.{publisher_auth}
use agentenv_skills_hub.Common.Text.{Text, text, text_eq}
use agentenv_skills_hub.Index.Postgres.{new_record}
use agentenv_skills_hub.Core.Model.{public}
use agentenv_skills_hub.Common.{Option, none, some, ok, [], ◌≡◌, refl, false, ℕ, if◌then◌else◌}

-- The variables name a database, and nothing else.
abbrev env : Text → Option Text
env name = if text_eq name (text "HUB_DATABASE_URL") then some (text "postgres://db") else none

abbrev pool : Pool ℕ
pool = record {
  connect = λ url. ok (record { session = calm_session });
  fault = λ step. none;
  others = λ catalog. catalog;
  pgvector = record { similar = λ db embedding limit. ok [] };
}

abbrev migrated : Catalog
migrated = (run_migrations pool.fault pool.others []).1

abbrev state : AppState ℕ
state =
    with_repository runtime (record { session = calm_session }) (text "community") false store none

configured_run : from_env env runtime none pool [] ≡ (ok state, migrated)
unfolding run_migrations from_env allow_unsigned_from_env store_from_env text_eq
configured_run = refl

strict_run : allow_unsigned_from_env env ≡ false
unfolding allow_unsigned_from_env text_eq
strict_run = refl

server_run :
    publish runtime.crates
      (runtime_service runtime calm_session store false)
      publisher_auth
      (text "acme")
      public
      signed_request
      (empty_db, empty_queue)
    ≡ (ok (new_record calm_session (text "acme") signed_request), (published_db, full_queue))
unfolding api_code
server_run = refl

from_env-IsTrusted_example : IsTrusted runtime signed_request
from_env-IsTrusted_example =
    from_env-IsTrusted env runtime none pool [] migrated state
      (runtime_service runtime calm_session store false) configured_run refl publisher_auth
      (text "acme") public signed_request (new_record calm_session (text "acme") signed_request)
      empty_db published_db empty_queue full_queue strict_run server_run

from_env-IsMigrated_example : IsMigrated pool.fault pool.others [] migrated
from_env-IsMigrated_example =
    from_env-IsMigrated env runtime none pool [] migrated state (record { session = calm_session })
      tt configured_run refl
