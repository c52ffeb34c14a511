-- ===== src/Api/Server/Public.antt =====
-- What the server's replies to readers can depend on.
use agentenv_skills_hub.Index.Queries.Listed.{listed, listed_rows}
use agentenv_skills_hub.Api.Handlers.Writes.{World}
use agentenv_skills_hub.Api.Handlers.Reads.{
  search, list_skills, list_versions, get_skill, get_version, index_json, index_of,
  filtered_search_index, index_for_state_and_namespace, Server,
}
use agentenv_skills_hub.Api.State.{RuntimeWebhookQueue}
use agentenv_skills_hub.Api.Handlers.{ApiResult, artifact_version}
use agentenv_skills_hub.Index.Postgres.{Session}
use agentenv_skills_hub.Api.Handlers.Artifacts.{db_artifact_response, fixture_artifact}
use agentenv_skills_hub.Api.State.App.{PgHubRepository}
use agentenv_skills_hub.Common.Text.{text_eq, Text}
use agentenv_skills_hub.Index.Tables.{Db}
use agentenv_skills_hub.Search.Vector
use agentenv_skills_hub.Index.Queries.{
  public_version_by_name, compatibility_index_for_namespace, compatibility_index, Row, join,
  is_listed,
}
use agentenv_skills_hub.Api.Routes.{to_similar_search}
use agentenv_skills_hub.Api.Server.Safe.{writes, handler_of}
use agentenv_skills_hub.Api.Server.{
  answered, Reply, Request, respond, for_well_known_agent_skills, for_index_json, for_healthz,
  for_readyz, for_metrics, for_fixture_artifact, for_list_skills, for_get_skill, for_list_versions,
  for_publish_version, for_get_version, for_yank_version, for_unyank_version, for_search,
  for_similar_search, for_list_webhooks, for_create_webhook, for_delete_webhook,
}
use agentenv_skills_hub.Common.{
  none, ◌≢◌, false, Option-cases, some, sym, Option, ap, ◌∙◌, arith, ◌&&◌, ◌≡◌, Bool, List, keep,
  [], ◌∷◌, refl, ok, err, inl, inr,
}

keep-keep :
    (p q r : Row → Bool) (rows : List Row)
    → ((x : Row) → r x ≡ (p x && q x))
    → keep r rows ≡ keep p (keep q rows)
unfolding keep
keep-keep p q r [] same = refl
keep-keep p q r (x ∷ rows) same = ground (arith, same x, keep-keep p q r rows same)

-- Equal answers give equal replies.
replied :
    {A : Type 0} (of_answer : A → Reply) (handler : Db → ApiResult A) (before after : World)
    → handler before.0 ≡ handler after.0
    → (answered of_answer (handler before.0, before)).0
      ≡ (answered of_answer (handler after.0, after)).0
replied {A} of_answer handler before after e = rw e (same_reply (handler after.0))
  where
    same_reply :
        (y : ApiResult A) → (answered of_answer (y, before)).0 ≡ (answered of_answer (y, after)).0
    same_reply (ok a) = refl
    same_reply (err e) = refl

module _ {F32 : Type 0} (server : Server F32) (before after : Db)
    (same : listed_rows before ≡ listed_rows after) where
  keep_listed :
      (p r : Row → Bool)
      → ((x : Row) → r x ≡ (p x && is_listed x))
      → keep r (join before.skills before.skill_versions)
        ≡ keep r (join after.skills after.skill_versions)
  unfolding listed
  keep_listed p r e =
      keep-keep p is_listed r (join before.skills before.skill_versions) e
      ∙ ap (keep p) same
      ∙ sym (keep-keep p is_listed r (join after.skills after.skill_versions) e)

  index_of_listed :
      (namespace : Option Text)
      → index_for_state_and_namespace server before namespace
        ≡ index_for_state_and_namespace server after namespace
  unfolding index_for_state_and_namespace compatibility_index compatibility_index_for_namespace
      listed
  index_of_listed namespace = indexed server.state.repository namespace
    where
      indexed :
          (repository : Option PgHubRepository) (namespace : Option Text)
          → index_of server before repository namespace ≡ index_of server after repository namespace
      indexed none namespace = refl
      indexed (some repository) none = rw same refl
      indexed (some repository) (some namespace) =
          rw
            (keep_listed (λ r. text_eq r.0.namespace namespace)
              (λ r. text_eq r.0.namespace namespace && is_listed r) (λ x. refl))
            refl

  public_of_listed :
      (session : Session) (name version : Text)
      → public_version_by_name server.runtime.crates server.arrange session before name version
        ≡ public_version_by_name server.runtime.crates server.arrange session after name version
  unfolding public_version_by_name
  public_of_listed session name version =
      rw
        (keep_listed (λ r. text_eq r.0.name name && text_eq r.1.version version)
          (λ r. is_listed r && (text_eq r.0.name name && text_eq r.1.version version))
          (λ x. ground arith))
        refl

  artifact_of_listed :
      (name artifact : Text)
      → fixture_artifact server before name artifact ≡ fixture_artifact server after name artifact
  unfolding fixture_artifact db_artifact_response
  artifact_of_listed name artifact = elim (Option-cases server.state.repository) [
    | inl e ↦ rw e refl
    | inr (repository, e) ↦ rw e (elim (Option-cases (artifact_version artifact)) [
      | inl v ↦ rw v refl
      | inr ((version, signature), v) ↦
          rw (v, public_of_listed repository.session name version) refl
    ])
  ]

  -- What a request other than a write or a similarity search is answered with depends on nothing but
  -- the versions of public skills that are not yanked: two databases with the same ones are told
  -- apart by no such request.
  pub respond_public :
      (search_text : Vector.SearchError → Text) (request : Request F32)
      (queue queue' : RuntimeWebhookQueue)
      → writes (handler_of request) ≡ false
      → handler_of request ≢ to_similar_search
      → (respond server search_text request (before, queue)).0
        ≡ (respond server search_text request (after, queue')).0
  unfolding respond get_skill get_version filtered_search_index
  respond_public search_text (for_publish_version namespace name query headers request) queue queue'
        reads lexical =
      absurd (cc)
  respond_public search_text (for_yank_version namespace name version headers request) queue queue'
        reads lexical =
      absurd (cc)
  respond_public search_text (for_unyank_version namespace name version headers) queue queue' reads
        lexical =
      absurd (cc)
  respond_public search_text (for_similar_search request) queue queue' reads lexical =
      absurd (lexical refl)
  respond_public search_text for_index_json queue queue' reads lexical =
      replied _ (λ db. index_json server db) (before, queue) (after, queue')
        (rw (index_of_listed none) refl)
  respond_public search_text (for_fixture_artifact name artifact) queue queue' reads lexical =
      replied _ (λ db. fixture_artifact server db name artifact) (before, queue) (after, queue')
        (rw (artifact_of_listed name artifact) refl)
  respond_public search_text (for_list_skills query) queue queue' reads lexical =
      replied _ (λ db. list_skills server db query) (before, queue) (after, queue')
        (rw (index_of_listed query.namespace) refl)
  respond_public search_text (for_get_skill namespace name) queue queue' reads lexical =
      replied _ (λ db. get_skill server db namespace name) (before, queue) (after, queue')
        (rw (index_of_listed (some namespace)) refl)
  respond_public search_text (for_list_versions namespace name) queue queue' reads lexical =
      replied _ (λ db. list_versions server db namespace name) (before, queue) (after, queue')
        (rw (index_of_listed (some namespace)) refl)
  respond_public search_text (for_get_version namespace name version) queue queue' reads lexical =
      replied _ (λ db. get_version server db namespace name version) (before, queue) (after, queue')
        (rw (index_of_listed (some namespace)) refl)
  respond_public search_text (for_search query) queue queue' reads lexical =
      replied _ (λ db. search server db query) (before, queue) (after, queue')
        (rw (index_of_listed query.namespace) refl)
  respond_public search_text for_well_known_agent_skills queue queue' reads lexical = refl
  respond_public search_text for_healthz queue queue' reads lexical = refl
  respond_public search_text for_readyz queue queue' reads lexical = refl
  respond_public search_text for_metrics queue queue' reads lexical = refl
  respond_public search_text for_list_webhooks queue queue' reads lexical = refl
  respond_public search_text for_create_webhook queue queue' reads lexical = refl
  respond_public search_text (for_delete_webhook id) queue queue' reads lexical = refl
