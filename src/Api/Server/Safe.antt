-- ===== src/Api/Server/Safe.antt =====
-- Which requests of the server may change something.
use agentenv_skills_hub.Core.Model.{PublishSkillRequest}
use agentenv_skills_hub.Common.{
  ◌⊎◌, inl, inr, any, ◌≡◌, Result, List, All, Bool, [], ◌∷◌, refl, ok, err, true, false, ◌&&◌, ◌++◌,
}
use mathlib.Core.List.{Mem}
use agentenv_skills_hub.Api.Handlers.Writes.{World}
use agentenv_skills_hub.Api.Handlers.{HeaderMap, ApiError}
use agentenv_skills_hub.Common.Text.{Text}
use agentenv_skills_hub.Api.Handlers.Reads.{Server}
use agentenv_skills_hub.Common.Apart.{All-at_mem, All-of_any}
use agentenv_skills_hub.Api.Server.{
  YankRequest, PublishQuery, answered, respond, Request, Reply, for_well_known_agent_skills,
  for_index_json, for_healthz, for_readyz, for_metrics, for_fixture_artifact, for_list_skills,
  for_get_skill, for_list_versions, for_publish_version, for_get_version, for_yank_version,
  for_unyank_version, for_search, for_similar_search, for_list_webhooks, for_create_webhook,
  for_delete_webhook,
}
use agentenv_skills_hub.Api.Routes.{
  to_well_known_agent_skills, to_index_json, to_healthz, to_readyz, to_metrics, to_fixture_artifact,
  to_list_skills, to_get_skill, to_list_versions, to_publish_version, to_get_version,
  to_yank_version, to_unyank_version, to_search, to_similar_search, to_list_webhooks,
  to_create_webhook, to_delete_webhook, get, Method, Handler, Route, build_router,
}
use agentenv_skills_hub.Search.Vector

-- The handler that a request is routed to.
abbrev pub handler_of : {F32 : Type 0} → Request F32 → Handler
handler_of for_well_known_agent_skills = to_well_known_agent_skills
handler_of for_index_json = to_index_json
handler_of (for_fixture_artifact name artifact) = to_fixture_artifact
handler_of for_healthz = to_healthz
handler_of for_readyz = to_readyz
handler_of for_metrics = to_metrics
handler_of (for_list_skills query) = to_list_skills
handler_of (for_get_skill namespace name) = to_get_skill
handler_of (for_list_versions namespace name) = to_list_versions
handler_of (for_publish_version namespace name query headers request) = to_publish_version
handler_of (for_get_version namespace name version) = to_get_version
handler_of (for_yank_version namespace name version headers request) = to_yank_version
handler_of (for_unyank_version namespace name version headers) = to_unyank_version
handler_of (for_search query) = to_search
handler_of (for_similar_search request) = to_similar_search
handler_of for_list_webhooks = to_list_webhooks
handler_of for_create_webhook = to_create_webhook
handler_of (for_delete_webhook id) = to_delete_webhook

abbrev pub writes : Handler → Bool
writes to_publish_version = true
writes to_yank_version = true
writes to_unyank_version = true
writes _ = false

-- The requests of the three handlers that write.
pub data IsWrite {F32 : Type 0} : Request F32 → Type 0 where
  publishes :
      (namespace name : Text) (query : PublishQuery) (headers : HeaderMap)
      (request : PublishSkillRequest)
      → IsWrite (for_publish_version namespace name query headers request)
  yanks :
      (namespace name version : Text) (headers : HeaderMap) (request : YankRequest)
      → IsWrite (for_yank_version namespace name version headers request)
  unyanks :
      (namespace name version : Text) (headers : HeaderMap)
      → IsWrite (for_unyank_version namespace name version headers)

pub IsWrite-cases :
    {F32 : Type 0} (request : Request F32) → IsWrite request ⊎ (writes (handler_of request) ≡ false)
IsWrite-cases (for_publish_version namespace name query headers request) =
    inl (publishes namespace name query headers request)
IsWrite-cases (for_yank_version namespace name version headers request) =
    inl (yanks namespace name version headers request)
IsWrite-cases (for_unyank_version namespace name version headers) =
    inl (unyanks namespace name version headers)
IsWrite-cases for_index_json = inr refl
IsWrite-cases (for_fixture_artifact name artifact) = inr refl
IsWrite-cases (for_list_skills query) = inr refl
IsWrite-cases (for_get_skill namespace name) = inr refl
IsWrite-cases (for_list_versions namespace name) = inr refl
IsWrite-cases (for_get_version namespace name version) = inr refl
IsWrite-cases (for_search query) = inr refl
IsWrite-cases (for_similar_search request) = inr refl
IsWrite-cases for_well_known_agent_skills = inr refl
IsWrite-cases for_healthz = inr refl
IsWrite-cases for_readyz = inr refl
IsWrite-cases for_metrics = inr refl
IsWrite-cases for_list_webhooks = inr refl
IsWrite-cases for_create_webhook = inr refl
IsWrite-cases (for_delete_webhook id) = inr refl

pub answered-state :
    {S A : Type 0} (of_answer : A → Reply) (x : Result ApiError A × S)
    → (answered of_answer x).1 ≡ x.1
answered-state of_answer (ok a, s) = refl
answered-state of_answer (err e, s) = refl

module _ {F32 : Type 0} (server : Server F32) (search_text : Vector.SearchError → Text) where
  pub respond_reads :
      (request : Request F32) (world : World)
      → writes (handler_of request) ≡ false
      → (respond server search_text request world).1 ≡ world
  unfolding respond
  respond_reads (for_publish_version namespace name query headers request) world h = absurd (cc)
  respond_reads (for_yank_version namespace name version headers request) world h = absurd (cc)
  respond_reads (for_unyank_version namespace name version headers) world h = absurd (cc)
  respond_reads for_index_json world h = answered-state _ _
  respond_reads (for_fixture_artifact name artifact) world h = answered-state _ _
  respond_reads (for_list_skills query) world h = answered-state _ _
  respond_reads (for_get_skill namespace name) world h = answered-state _ _
  respond_reads (for_list_versions namespace name) world h = answered-state _ _
  respond_reads (for_get_version namespace name version) world h = answered-state _ _
  respond_reads (for_search query) world h = answered-state _ _
  respond_reads (for_similar_search request) world h = answered-state _ _
  respond_reads for_well_known_agent_skills world h = refl
  respond_reads for_healthz world h = refl
  respond_reads for_readyz world h = refl
  respond_reads for_metrics world h = refl
  respond_reads for_list_webhooks world h = refl
  respond_reads for_create_webhook world h = refl
  respond_reads (for_delete_webhook id) world h = refl

abbrev is_get : Method → Bool
is_get get = true
is_get _ = false

-- What the router routes, over all paths.
unfoldable pub routed : List Route → List (Method × Handler)
routed [] = []
routed (route ∷ routes) = route.methods ++ routed routes

routed_under_get : All (λ r. (is_get r.0 && writes r.1) ≡ false) (routed build_router)
unfolding routed build_router any
routed_under_get = All-of_any (λ r. is_get r.0 && writes r.1) (routed build_router) refl

-- A GET request changes nothing: neither the tables nor the queue.
pub get_changes_nothing :
    {F32 : Type 0} (server : Server F32) (search_text : Vector.SearchError → Text)
    (request : Request F32) (world : World)
    → Mem (get, handler_of request) (routed build_router)
    → (respond server search_text request world).1 ≡ world
get_changes_nothing server search_text request world m =
    respond_reads server search_text request world (
      All-at_mem (λ r. is_get r.0 && writes r.1) (routed build_router) (get, handler_of request)
        routed_under_get m)
