-- ===== src/Api/Main.antt =====
-- crates/hub-api/src/main.rs, without its logging.
use agentenv_skills_hub.Common.State.{Run, lift, ◌>>=◌}
use agentenv_skills_hub.Index.Migrations.{Catalog}
use agentenv_skills_hub.Api.State.Startup.{Pool, from_env}
use agentenv_skills_hub.Common.{List, Result, Option}
use agentenv_skills_hub.Api.Routes.{build_router, Route}
use agentenv_skills_hub.Api.State.{Runtime}
use agentenv_skills_hub.Common.Text.{text, Text}
use agentenv_skills_hub.Api.State.App.{AppState, unwrap_or}

-- The listener of tokio, and axum's loop that serves a router.
pub record Process (F32 : Type 0) : Type 1 where
  pub Listener : Type 0
  pub bind : Text → Result Text Listener
  pub serve : Listener → List Route → AppState F32 → Result Text Unit

module _ (env : Text → Option Text) (runtime : Runtime) (unbuilt : Option Text) {F32 : Type 0}
    (pool : Pool F32) (process : Process F32) where
  unfoldable pub main : Run Catalog Text Unit
  unfolding from_env build_router
  main = do
    let addr = unwrap_or (text "127.0.0.1:7777") (env (text "HUB_LISTEN_ADDR"))
    state ← from_env env runtime unbuilt pool
    listener ← lift (process.bind addr)
    lift (process.serve listener build_router state)
