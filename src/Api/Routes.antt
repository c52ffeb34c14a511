-- ===== src/Api/Routes.antt =====
-- The handlers of crates/hub-api/src/handlers.rs that answer with a constant, and the table of
-- crates/hub-api/src/routes.rs. Which path a pattern matches is axum's.
use agentenv_skills_hub.Api.State.App.{AppState}
use agentenv_skills_hub.Common.Text.{text_eq, Text, text}
use agentenv_skills_hub.Core.Model.{Value, nil, string, object, array, field, end}
use agentenv_skills_hub.Common.{
  ◌&&◌, refl, not, true, all, ◌≡◌, is_some, List, Bool, ℕ, ◌++◌, if◌then◌else◌, [], ◌∷◌,
}

abbrev status_value : Text → Value
status_value s = object (field (text "status") (string s) end)

abbrev pub healthz : Value
healthz = status_value (text "ok")

abbrev pub readyz : {F32 : Type 0} → AppState F32 → Value
readyz state = status_value (if is_some state.repository then text "ready" else text "fixture")

abbrev pub well_known_agent_skills : Value
well_known_agent_skills = object (
    field (text "schema_version") (string (text "0.1")) (
      field (text "registry")
        (object (
          field (text "type") (string (text "agentenv-skills-hub")) (
            field (text "index") (string (text "/index.json"))
              (field (text "api") (string (text "/api/v1")) end))))
        end))

abbrev pub metrics : Text
metrics =
    text "# HELP agentenv_skills_hub_info Skill hub info"
    ++ (10 ∷ text "# TYPE agentenv_skills_hub_info gauge"
        ++ (10 ∷ text "agentenv_skills_hub_info 1" ++ 10 ∷ []))

abbrev pub list_webhooks : Value
list_webhooks = object (field (text "subscriptions") (array nil) end)

abbrev pub create_webhook : ℕ × Value
create_webhook = (202, status_value (text "accepted"))

abbrev pub delete_webhook : Text → ℕ
delete_webhook id = 204

pub data Method : Type 0 where
  get post delete : Method

-- The functions of handlers.rs that are routed.
pub data Handler : Type 0 where
  to_well_known_agent_skills to_index_json to_fixture_artifact to_healthz to_readyz to_metrics :
      Handler
  to_list_skills to_get_skill to_list_versions to_publish_version to_get_version : Handler
  to_yank_version to_unyank_version to_search to_similar_search : Handler
  to_list_webhooks to_create_webhook to_delete_webhook : Handler

pub record Route : Type 0 where
  pub path : Text
  pub methods : List (Method × Handler)

abbrev at : Text → List (Method × Handler) → Route
at path methods = record { path = path; methods = methods }

unfoldable pub build_router : List Route
build_router =
    at (text "/.well-known/agent-skills") ((get, to_well_known_agent_skills) ∷ [])
    ∷ at (text "/index.json") ((get, to_index_json) ∷ [])
    ∷ at (text "/skills/{name}/{artifact}") ((get, to_fixture_artifact) ∷ [])
    ∷ at (text "/api/v1/healthz") ((get, to_healthz) ∷ [])
    ∷ at (text "/api/v1/readyz") ((get, to_readyz) ∷ [])
    ∷ at (text "/metrics") ((get, to_metrics) ∷ [])
    ∷ at (text "/api/v1/skills") ((get, to_list_skills) ∷ [])
    ∷ at (text "/api/v1/skills/{namespace}/{name}") ((get, to_get_skill) ∷ [])
    ∷ at (text "/api/v1/skills/{namespace}/{name}/versions")
        ((get, to_list_versions) ∷ (post, to_publish_version) ∷ [])
    ∷ at (text "/api/v1/skills/{namespace}/{name}/versions/{version}") ((get, to_get_version) ∷ [])
    ∷ at (text "/api/v1/skills/{namespace}/{name}/versions/{version}/yank")
        ((post, to_yank_version) ∷ [])
    ∷ at (text "/api/v1/skills/{namespace}/{name}/versions/{version}/unyank")
        ((post, to_unyank_version) ∷ [])
    ∷ at (text "/api/v1/search") ((get, to_search) ∷ [])
    ∷ at (text "/api/v1/search/similar") ((post, to_similar_search) ∷ [])
    ∷ at (text "/api/v1/webhooks") ((get, to_list_webhooks) ∷ (post, to_create_webhook) ∷ [])
    ∷ at (text "/api/v1/webhooks/{id}") ((delete, to_delete_webhook) ∷ [])
    ∷ []

unfoldable apart_paths : List Route → Bool
unfolding all text_eq
apart_paths [] = true
apart_paths (route ∷ routes) =
    all (λ other. not (text_eq route.path other.path)) routes && apart_paths routes

-- No two routes have the same path, at which the router would panic.
build_router_paths : apart_paths build_router ≡ true
unfolding build_router apart_paths
build_router_paths = refl
