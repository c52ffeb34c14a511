-- ===== src/Api/Handlers/Reads.antt =====
-- The handlers of crates/hub-api/src/handlers.rs that list and search. axum has taken the parameters
-- out of the path and the query; a `Json` answer is its value.
pub mod Search
pub mod Namespace
pub mod Version
use agentenv_skills_hub.Api.Handlers.Fixture.{fixture_index, Fixtures}
use agentenv_skills_hub.Core.Error.{HubResult}
use agentenv_skills_hub.Index.Queries.{compatibility_index, compatibility_index_for_namespace, Row}
use agentenv_skills_hub.Api.State.App.{fixture, AppState, PgHubRepository}
use agentenv_skills_hub.Search.Lexical.{filter_map, SearchDocument, lexical_rank}
use agentenv_skills_hub.Api.Handlers.{internal, unavailable, from, ApiError, ApiResult}
use agentenv_skills_hub.Common.Text.{text_eq, text, trim, Text}
use agentenv_skills_hub.Core.Model.{CompatibilitySkillHit, CompatibilityIndex}
use agentenv_skills_hub.Storage.Digest.{hex}
use agentenv_skills_hub.Index.Tables.{Db}
use agentenv_skills_hub.Api.State.{Runtime}
use agentenv_skills_hub.Common.{
  ◌&&◌, Bool, map, take, ◌++◌, map_err, ok_or, is_empty, find, List, Result, Option, ℕ, keep, ok,
  err, none, some, ◌>>=◌, ◌>>◌, [], ◌∷◌, if◌then◌else◌,
}
use agentenv_skills_hub.Common.Int.{ℤ, pos}
use agentenv_skills_hub.Search.Vector

pub record SearchQuery : Type 0 where
  pub q : Option Text
  pub query : Option Text
  pub namespace : Option Text
  pub limit : Option ℕ

unfoldable pub filter_index :
    CompatibilityIndex → (CompatibilitySkillHit → Bool) → CompatibilityIndex
unfolding keep
filter_index index predicate = record { skills = keep predicate index.skills }

abbrev pub truncate : {A : Type 0} → Option ℕ → List A → List A
truncate none xs = xs
truncate (some limit) xs = take limit xs

unfoldable pub truncate_index : CompatibilityIndex → Option ℕ → CompatibilityIndex
truncate_index index limit = record { skills = truncate limit index.skills }

abbrev pub document_of : CompatibilitySkillHit → SearchDocument
document_of hit = record {
  namespace = hit.registry;
  name = hit.name;
  version = hit.version;
  description = hit.description;
}

abbrev pub hit_of : List CompatibilitySkillHit → SearchDocument → Option CompatibilitySkillHit
hit_of skills doc =
    find (λ hit. text_eq hit.name doc.name && text_eq hit.version doc.version) skills

-- What the reading handlers are given besides the database: the server's state, its ORDER BY, the
-- Unicode tables and the other parameters.
pub record Server (F32 : Type 0) : Type 1 where
  pub runtime : Runtime
  pub fixtures : Fixtures
  pub arrange : List Row → List Row
  pub to_lowercase : Text → Text
  pub state : AppState F32

module _ {F32 : Type 0} (server : Server F32) (db : Db) where
  abbrev pub repository_index : PgHubRepository → Option Text → HubResult CompatibilityIndex
  repository_index repository (some namespace) =
      compatibility_index_for_namespace server.runtime.crates server.arrange repository.session db
        namespace
  repository_index repository none =
      compatibility_index server.runtime.crates server.arrange repository.session db
        server.state.registry

  abbrev in_namespace : Option Text → CompatibilityIndex → CompatibilityIndex
  in_namespace none index = index
  in_namespace (some namespace) index = filter_index index (λ hit. text_eq hit.registry namespace)

  abbrev pub index_of : Option PgHubRepository → Option Text → ApiResult CompatibilityIndex
  index_of (some repository) namespace = map_err from (repository_index repository namespace)
  index_of none namespace = do
    index ← fixture_index server.fixtures server.runtime.outside.sha256 server.state.registry
    ok (in_namespace namespace index)

  unfoldable pub index_for_state_and_namespace : Option Text → ApiResult CompatibilityIndex
  unfolding fixture_index filter_index from
  index_for_state_and_namespace namespace = index_of server.state.repository namespace

  abbrev pub index_for_state : ApiResult CompatibilityIndex
  index_for_state = index_for_state_and_namespace none

  abbrev pub index_json : ApiResult CompatibilityIndex
  index_json = index_for_state

  abbrev found : Text → CompatibilityIndex → ApiResult CompatibilityIndex
  found name index =
      if is_empty index.skills
      then err
          (record { status = 404; message = text "skill `" ++ (name ++ text "` was not found") })
      else ok index

  unfoldable pub get_skill : Text → Text → ApiResult CompatibilityIndex
  unfolding filter_index index_for_state_and_namespace
  get_skill namespace name = do
    index ← index_for_state_and_namespace (some namespace)
    found name (filter_index index (λ hit. text_eq hit.name name))

  abbrev pub list_versions : Text → Text → ApiResult CompatibilityIndex
  list_versions namespace name = get_skill namespace name

  unfoldable pub get_version : Text → Text → Text → ApiResult CompatibilitySkillHit
  unfolding find index_for_state_and_namespace
  get_version namespace name version = do
    index ← index_for_state_and_namespace (some namespace)
    ok_or
        (record {
          status = 404;
          message =
              text "skill `"
              ++ (name ++ (text "` version `" ++ (version ++ text "` was not found")));
        })
        (find (λ hit. text_eq hit.name name && text_eq hit.version version) index.skills)

  abbrev or_else : Option Text → Option Text → Option Text
  or_else none o = o
  or_else (some s) o = some s

  -- The hits of the ranked documents, cut to the limit.
  unfoldable pub ranked_hits :
      Text → Option ℕ → List CompatibilitySkillHit → List CompatibilitySkillHit
  unfolding lexical_rank filter_map find
  ranked_hits search_terms limit skills = truncate limit (
      filter_map (hit_of skills)
        (lexical_rank server.to_lowercase search_terms (map document_of skills)))

  abbrev searched : Option Text → Option ℕ → CompatibilityIndex → CompatibilityIndex
  searched none limit index = truncate_index index limit
  searched (some search_terms) limit index = record {
    skills = ranked_hits search_terms limit index.skills;
  }

  unfoldable pub filtered_search_index : SearchQuery → ApiResult CompatibilityIndex
  unfolding truncate_index ranked_hits index_for_state_and_namespace
  filtered_search_index query = do
    index ← index_for_state_and_namespace query.namespace
    ok (searched (or_else query.q query.query) query.limit index)

  abbrev pub list_skills : SearchQuery → ApiResult CompatibilityIndex
  list_skills query = filtered_search_index query

  abbrev pub search : SearchQuery → ApiResult CompatibilityIndex
  search query = filtered_search_index query

  abbrev similar_hit : SearchDocument → CompatibilitySkillHit
  similar_hit doc = record {
    name = doc.name;
    version = doc.version;
    description = doc.description;
    registry = doc.namespace;
    digest = none;
    signature_ed25519 = none;
    public_key_ed25519 = none;
  }

  abbrev or_twenty : Option ℤ → ℤ
  or_twenty none = pos 20
  or_twenty (some limit) = limit

  -- `search_text` is `to_string` of a `SearchError`.
  unfoldable pub similar_search :
      (Vector.SearchError → Text) → List F32 → Option ℤ → ApiResult CompatibilityIndex
  similar_search search_text embedding limit = do
    search ← ok_or (unavailable (text "semantic search is not configured")) server.state.search
    docs ←
        map_err (λ source. internal (search_text source))
          (search.similar db embedding (or_twenty limit))
    ok (record { skills = map similar_hit docs })
