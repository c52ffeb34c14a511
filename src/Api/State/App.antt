-- ===== src/Api/State/App.antt =====
-- `AppState` of crates/hub-api/src/state.rs, and how the environment configures it. The store of a
-- repository and of a search is the database, which the handlers are given.
use agentenv_skills_hub.Search.Lexical.{SearchDocument}
use agentenv_skills_hub.Search.Vector.{similar, Floats, EmbeddedRow, SkillEmbeddingRow, SearchError}
use agentenv_skills_hub.Common.Int.{ℤ}
use agentenv_skills_hub.Core.Service.{HubService}
use agentenv_skills_hub.Storage.Stores.{
  new_for_registry, S3ArtifactStore, OciArtifactStore, new_for_endpoint,
}
use agentenv_skills_hub.Storage.{StorageResult}
use agentenv_skills_hub.Index.Tables.{Db}
use agentenv_skills_hub.Api.State.{
  runtime_service, RuntimeWebhookQueue, RuntimeArtifactStore, Runtime,
}
use agentenv_skills_hub.Index.Postgres.{Session}
use agentenv_skills_hub.Common.Text.{text_eq, Text, text}
use agentenv_skills_hub.Common.{false, Bool, List, Result, Option, ok, none, some, ◌>>=◌, ◌||◌}

pub record PgHubRepository : Type 0 where
  pub session : Session

pub record SemanticSearch (F32 : Type 0) : Type 0 where
  pub similar : Db → List F32 → ℤ → Result SearchError (List SearchDocument)

-- `impl SemanticSearch for PgVectorSearch`, at the server's ordering, the failure of its query and the
-- embeddings in the database.
abbrev pub pg_vector_search :
    (floats : Floats)
    → (Text → List (EmbeddedRow floats) → List (EmbeddedRow floats))
    → Option Text
    → List (SkillEmbeddingRow floats)
    → SemanticSearch floats.F32
pg_vector_search floats ordered fault embeddings = record {
  similar = λ db embedding limit. similar floats ordered fault db embeddings embedding limit;
}

pub record AppState (F32 : Type 0) : Type 0 where
  pub registry : Text
  pub repository : Option PgHubRepository
  pub service : Option (HubService Db RuntimeWebhookQueue)
  pub artifact_store : RuntimeArtifactStore
  pub search : Option (SemanticSearch F32)

abbrev pub default_store : RuntimeArtifactStore
default_store = record { s3 = none; oci = none }

abbrev pub fixture : {F32 : Type 0} → AppState F32
fixture = record {
  registry = text "community";
  repository = none;
  service = none;
  artifact_store = default_store;
  search = none;
}

abbrev pub with_repository :
    {F32 : Type 0}
    → Runtime
    → PgHubRepository
    → Text
    → Bool
    → RuntimeArtifactStore
    → Option (SemanticSearch F32)
    → AppState F32
with_repository runtime repository registry allow_unsigned artifact_store search = record {
  registry = registry;
  repository = some repository;
  service = some (runtime_service runtime repository.session artifact_store allow_unsigned);
  artifact_store = artifact_store;
  search = search;
}

-- `matches!(value.as_str(), "1" | "true" | "TRUE" | "yes" | "YES")`
abbrev allows : Option Text → Bool
allows none = false
allows (some value) =
    text_eq value (text "1")
    || text_eq value (text "true")
    || text_eq value (text "TRUE")
    || text_eq value (text "yes")
    || text_eq value (text "YES")

abbrev pub or_else : Option Text → Option Text → Option Text
or_else none o = o
or_else (some s) o = some s

abbrev pub unwrap_or : Text → Option Text → Text
unwrap_or d none = d
unwrap_or d (some s) = s

-- `std::env::var(…).ok()`
module _ (env : Text → Option Text) where
  unfoldable pub allow_unsigned_from_env : Bool
  allow_unsigned_from_env = allows (env (text "HUB_ALLOW_UNSIGNED"))

  module _ (runtime : Runtime) (unbuilt : Option Text) where
    abbrev s3_from : Option Text → StorageResult (Option S3ArtifactStore)
    s3_from none = ok none
    s3_from (some endpoint) = do s3 ← new_for_endpoint runtime.crates unbuilt endpoint; ok (some s3)

    abbrev oci_from : Option Text → Option Text → StorageResult (Option OciArtifactStore)
    oci_from (some host) (some base_url) = do
      oci ← new_for_registry runtime.crates unbuilt host base_url
      ok (some oci)
    oci_from none base_url = ok none
    oci_from (some host) none = ok none

    unfoldable pub store_from_env : StorageResult RuntimeArtifactStore
    unfolding new_for_endpoint new_for_registry
    store_from_env = do
      s3 ← s3_from (env (text "HUB_STORAGE_S3_ENDPOINT"))
      oci ←
          oci_from (env (text "HUB_STORAGE_OCI_REGISTRY_HOST"))
            (env (text "HUB_STORAGE_OCI_BASE_URL"))
      ok (record { s3 = s3; oci = oci })
