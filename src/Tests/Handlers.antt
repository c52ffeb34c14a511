-- ===== src/Tests/Handlers.antt =====
-- The theorems about the handlers of hub-api at concrete requests.
use agentenv_skills_hub.Api.Handlers.Fixture.{Archive}
use agentenv_skills_hub.Api.Handlers.Artifacts.{content, db_artifact_response, artifact_bytes}
use agentenv_skills_hub.Api.Handlers.Artifacts.Laws.{IsServed, db_artifact_response-IsServed}
use agentenv_skills_hub.Api.Handlers.Reads.{
  Server, SearchQuery, document_of, filtered_search_index, ranked_hits,
  index_for_state_and_namespace, truncate,
}
use agentenv_skills_hub.Api.Handlers.Reads.Namespace.{namespace_search-documents}
use agentenv_skills_hub.Index.Postgres.WellFormed.{IsWellFormed}
use agentenv_skills_hub.Api.Handlers.Writes.{publish_version, yank_version, unyank_version}
use agentenv_skills_hub.Api.Handlers.Writes.Guards.{
  IsRefused, anonymous-writes, IsCreated, publish_version-IsCreated,
}
use agentenv_skills_hub.Api.Handlers.{
  HeaderMap, auth_from_headers, parse_role, header_value, artifact_version,
}
use agentenv_skills_hub.Api.State.App.{AppState, with_repository}
use agentenv_skills_hub.Search.Lexical.{lexical_rank, rank, filter_map}
use agentenv_skills_hub.Tests.Api.{
  runtime, store, signed_request, api_code, empty_queue, full_queue, published_db, headers,
  no_subject,
}
use agentenv_skills_hub.Tests.Index.{calm_session, empty_db, empty_db-IsWellFormed}
use agentenv_skills_hub.Tests.Fixtures.{crates, request}
use agentenv_skills_hub.Index.Postgres.{new_record}
use agentenv_skills_hub.Index.Queries.{compatibility_index_for_namespace, public_version_by_name}
use agentenv_skills_hub.Core.Model.{CompatibilityIndex, public}
use agentenv_skills_hub.Common.Text.{text, text_eq, trim, Text, to_ascii_lowercase}
use agentenv_skills_hub.Tests.Storage
use mathlib.Core.List.Perm
use agentenv_skills_hub.Index.Queries.Served.{readable}
use agentenv_skills_hub.Common.{
  All, any, List, [], ◌∷◌, none, some, ok, ◌≡◌, refl, false, ℕ, map, if◌then◌else◌,
}

abbrev state : AppState ℕ
state = with_repository runtime (record { session = calm_session }) (text "hub") false store none

anonymous-writes_example :
    IsRefused
      (empty_db, empty_queue)
      (publish_version crates state headers
        (text "acme")
        (text "code-review")
        none
        request
        (empty_db, empty_queue))
    × IsRefused
        (empty_db, empty_queue)
        (yank_version crates state headers
          (text "acme")
          (text "code-review")
          (text "1.2.0")
          none
          (empty_db, empty_queue))
    × IsRefused
        (empty_db, empty_queue)
        (unyank_version crates state headers
          (text "acme")
          (text "code-review")
          (text "1.2.0")
          (empty_db, empty_queue))
anonymous-writes_example =
    anonymous-writes crates state headers no_subject (empty_db, empty_queue) (text "acme")
      (text "code-review") (text "1.2.0") none request none

-- The headers of a publisher.
abbrev pub signed_in : HeaderMap
signed_in name =
    if text_eq name (text "x-agentenv-subject")
    then some (ok (text "ann"))
    else if text_eq name (text "x-agentenv-scopes")
    then some (ok (text "skills:publish"))
    else if text_eq name (text "x-agentenv-roles")
    then some (ok (text "acme:publisher"))
    else none

created_run :
    publish_version runtime.crates state signed_in
      (text "acme")
      (text "code-review")
      (some public)
      signed_request
      (empty_db, empty_queue)
    ≡ (ok (201, new_record calm_session (text "acme") signed_request), (published_db, full_queue))
unfolding api_code publish_version auth_from_headers header_value parse_role trim
created_run = refl

publish_version-IsCreated_example :
    (◌≡◌ {A = ℕ} 201 201)
    × IsCreated {F32 = ℕ} runtime calm_session
        (text "hub")
        false
        store
        none
        signed_in
        (text "acme")
        (text "code-review")
        (some public)
        signed_request
        (new_record calm_session (text "acme") signed_request)
        published_db
publish_version-IsCreated_example =
    publish_version-IsCreated {F32 = ℕ} runtime calm_session (text "hub") false store none signed_in
      (text "acme") (text "code-review") (some public) signed_request empty_db published_db
      empty_queue full_queue 201 (new_record calm_session (text "acme") signed_request)
      empty_db-IsWellFormed (λ d. refl) created_run

-- An archive that answers with no bytes.
abbrev archive : Archive
archive = record {
  Builder = List ℕ;
  Encoder = List ℕ;
  new = ok [];
  append_data = λ b path bs. ok b;
  into_inner = λ b. ok b;
  finish = λ e. ok e;
}

abbrev lowercase : Text → Text
lowercase s = map to_ascii_lowercase s

abbrev pub server : Server ℕ
server = record {
  runtime = runtime;
  fixtures = record { archive = archive; skill_yaml = []; skill_md = [] };
  arrange = λ rows. rows;
  to_lowercase = lowercase;
  state = state;
}

served_run :
    db_artifact_response server published_db
      (record { session = calm_session })
      (text "code-review")
      (text "1.2.0.tar.zst")
    ≡ ok (content (text "application/zstd") Storage.content)
unfolding api_code db_artifact_response artifact_bytes artifact_version public_version_by_name
served_run = refl

db_artifact_response-IsServed_example :
    IsServed server published_db
      (λ rows. Perm.refl rows)
      (record { session = calm_session })
      (text "code-review")
      (text "1.2.0.tar.zst")
      (text "application/zstd")
      Storage.content
db_artifact_response-IsServed_example =
    db_artifact_response-IsServed server published_db (λ rows. Perm.refl rows)
      (record { session = calm_session }) (text "code-review") (text "1.2.0.tar.zst")
      (text "application/zstd") Storage.content served_run

abbrev query : SearchQuery
query = record {
  q = some (text "REVIEW");
  query = none;
  namespace = some (text "acme");
  limit = some 3;
}

abbrev acme_index : CompatibilityIndex
acme_index = record {
  skills =
      record {
        name = text "code-review";
        version = text "1.2.0";
        description = some (text "Review code");
        registry = text "acme";
        digest = some signed_request.artifact.digest;
        signature_ed25519 = some (text "aa");
        public_key_ed25519 = some (text "bb");
      }
      ∷ [];
}

index_run : index_for_state_and_namespace server published_db (some (text "acme")) ≡ ok acme_index
unfolding api_code index_for_state_and_namespace compatibility_index_for_namespace
index_run = refl

search_run : filtered_search_index server published_db query ≡ ok acme_index
unfolding api_code index_for_state_and_namespace compatibility_index_for_namespace
    filtered_search_index ranked_hits lexical_rank rank trim to_ascii_lowercase filter_map
search_run = refl

pub published_db-IsWellFormed : IsWellFormed published_db
unfolding any
published_db-IsWellFormed = record {
  skill_ids = (tt, tt);
  skill_names = (tt, tt);
  version_ids = (tt, tt);
  version_keys = (tt, tt);
  references = (refl, tt);
}

namespace_search-documents_example :
    (map document_of acme_index.skills
      ≡ truncate
          (some 3)
          (lexical_rank lowercase (text "REVIEW") (map document_of acme_index.skills)))
    × All (λ h. readable (text "acme") h.name h.version published_db ≡ some h) acme_index.skills
namespace_search-documents_example =
    namespace_search-documents server published_db (λ rows. Perm.refl rows)
      (record { session = calm_session }) refl published_db-IsWellFormed (text "acme") query
      (text "REVIEW") acme_index acme_index refl refl index_run search_run
