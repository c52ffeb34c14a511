-- ===== src/Api/Server.antt =====
-- The whole server of crates/hub-api: a request, whose route and parameters axum has read, is answered
-- by the handler of crates/hub-api/src/handlers.rs that crates/hub-api/src/routes.rs names for it.
pub mod Calls
pub mod Safe
pub mod Outcomes
pub mod Errors
pub mod Apart
pub mod Public
pub mod Unseen
pub mod Kept
pub mod Served
pub mod Progress
use agentenv_skills_hub.Api.Handlers.Artifacts
use agentenv_skills_hub.Api.Handlers.Artifacts.{not_found, plain, content, fixture_artifact}
use agentenv_skills_hub.Api.Handlers.Writes.{World, publish_version, yank_version, unyank_version}
use agentenv_skills_hub.Api.Handlers.Reads.{
  SearchQuery, Server, get_skill, get_version, filtered_search_index, similar_search,
  index_for_state_and_namespace, index_json, list_skills, list_versions, search,
}
use agentenv_skills_hub.Api.Handlers.{ApiError, ApiResult, HeaderMap, into_response}
use agentenv_skills_hub.Api.Routes.{
  healthz, readyz, well_known_agent_skills, metrics, list_webhooks, create_webhook, delete_webhook,
}
use agentenv_skills_hub.Search.Vector
use agentenv_skills_hub.Index.Tables.{Db}
use agentenv_skills_hub.Core.Model.{
  Visibility, Value, CompatibilityIndex, CompatibilitySkillHit, SkillVersionRecord,
  PublishSkillRequest,
}
use agentenv_skills_hub.Common.Text.{Text}
use agentenv_skills_hub.Common.Int.{ℤ}
use agentenv_skills_hub.Common.{ℕ, Option, List, Result, ok, err, [], ◌∷◌}

-- The parameters that serde reads.
pub record PublishQuery : Type 0 where
  pub visibility : Option Visibility

pub record SimilarSearchRequest (F32 : Type 0) : Type 0 where
  pub embedding : List F32
  pub limit : Option ℤ

pub record YankRequest : Type 0 where
  pub reason : Option Text

-- One constructor for each handler, with what its extractors give it.
pub data Request (F32 : Type 0) : Type 0 where
  for_well_known_agent_skills for_index_json for_healthz for_readyz for_metrics : Request F32
  for_fixture_artifact : (name artifact : Text) → Request F32
  for_list_skills : SearchQuery → Request F32
  for_get_skill : (namespace name : Text) → Request F32
  for_list_versions : (namespace name : Text) → Request F32
  for_publish_version :
      (namespace name : Text) → PublishQuery → HeaderMap → PublishSkillRequest → Request F32
  for_get_version : (namespace name version : Text) → Request F32
  for_yank_version : (namespace name version : Text) → HeaderMap → YankRequest → Request F32
  for_unyank_version : (namespace name version : Text) → HeaderMap → Request F32
  for_search : SearchQuery → Request F32
  for_similar_search : SimilarSearchRequest F32 → Request F32
  for_list_webhooks for_create_webhook : Request F32
  for_delete_webhook : (id : Text) → Request F32

-- What a handler answers with, before serde prints it.
pub data Body : Type 0 where
  nothing : Body
  json : Value → Body
  index : CompatibilityIndex → Body
  hit : CompatibilitySkillHit → Body
  stored_version : SkillVersionRecord → Body
  plain_text : Text → Body
  artifact_content : (content_type : Text) → List ℕ → Body

pub record Reply : Type 0 where
  pub status : ℕ
  pub body : Body

abbrev pub reply : ℕ → Body → Reply
reply status body = record { status = status; body = body }

abbrev pub error_reply : ApiError → Reply
error_reply error = let (status, value) = into_response error in reply status (json value)

-- `IntoResponse` of a handler's result.
abbrev pub answered : {S A : Type 0} → (A → Reply) → Result ApiError A × S → Reply × S
answered of_answer (ok answer, s) = (of_answer answer, s)
answered of_answer (err e, s) = (error_reply e, s)

abbrev reply_of_response : Artifacts.Response → Reply
reply_of_response not_found = reply 404 nothing
reply_of_response (plain line) = reply 200 (plain_text line)
reply_of_response (content content_type body) = reply 200 (artifact_content content_type body)

-- `search_text` is `to_string` of a `SearchError`.
module _ {F32 : Type 0} (server : Server F32) (search_text : Vector.SearchError → Text) where
  abbrev reading : {A : Type 0} → (A → Reply) → (Db → ApiResult A) → World → Reply × World
  reading of_answer handler world = answered of_answer (handler world.0, world)

  unfoldable pub respond : Request F32 → World → Reply × World
  unfolding get_skill get_version filtered_search_index similar_search index_for_state_and_namespace
      fixture_artifact publish_version yank_version unyank_version
  respond for_well_known_agent_skills world = (reply 200 (json well_known_agent_skills), world)
  respond for_index_json world =
      reading (λ a. reply 200 (index a)) (λ db. index_json server db) world
  respond for_healthz world = (reply 200 (json healthz), world)
  respond for_readyz world = (reply 200 (json (readyz server.state)), world)
  respond for_metrics world = (reply 200 (plain_text metrics), world)
  respond (for_fixture_artifact name artifact) world =
      reading reply_of_response (λ db. fixture_artifact server db name artifact) world
  respond (for_list_skills query) world =
      reading (λ a. reply 200 (index a)) (λ db. list_skills server db query) world
  respond (for_get_skill namespace name) world =
      reading (λ a. reply 200 (index a)) (λ db. get_skill server db namespace name) world
  respond (for_list_versions namespace name) world =
      reading (λ a. reply 200 (index a)) (λ db. list_versions server db namespace name) world
  respond (for_publish_version namespace name query headers request) world =
      answered (λ (status, stored). reply status (stored_version stored))
        (publish_version server.runtime.crates server.state headers namespace name query.visibility
          request world)
  respond (for_get_version namespace name version) world =
      reading (λ a. reply 200 (hit a)) (λ db. get_version server db namespace name version) world
  respond (for_yank_version namespace name version headers request) world =
      answered (λ status. reply status nothing)
        (yank_version server.runtime.crates server.state headers namespace name version
          request.reason world)
  respond (for_unyank_version namespace name version headers) world =
      answered (λ status. reply status nothing)
        (unyank_version server.runtime.crates server.state headers namespace name version world)
  respond (for_search query) world =
      reading (λ a. reply 200 (index a)) (λ db. search server db query) world
  respond (for_similar_search request) world =
      reading (λ a. reply 200 (index a))
        (λ db. similar_search server db search_text request.embedding request.limit) world
  respond for_list_webhooks world = (reply 200 (json list_webhooks), world)
  respond for_create_webhook world =
      let (status, value) = create_webhook in (reply status (json value), world)
  respond (for_delete_webhook id) world = (reply (delete_webhook id) nothing, world)

-- The requests, one after the other, each at the server's state, clock and other parameters then.
unfoldable pub respond_all :
    {F32 : Type 0} → (Vector.SearchError → Text) → List (Server F32 × Request F32) → World → World
unfolding respond
respond_all search_text [] world = world
respond_all search_text ((server, request) ∷ steps) world =
    respond_all search_text steps (respond server search_text request world).1
