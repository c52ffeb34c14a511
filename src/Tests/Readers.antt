-- ===== src/Tests/Readers.antt =====
-- The theorems about what readers see at concrete requests.
use agentenv_skills_hub.Api.Server.Served.{publish_served}
use agentenv_skills_hub.Index.Queries.Served.{readable, hit_of_record}
use agentenv_skills_hub.Api.Handlers.Reads.Version.{get_version_lem, version_missing}
use agentenv_skills_hub.Api.Handlers.{parse_role, header_value, auth_from_headers}
use agentenv_skills_hub.Index.Postgres.WellFormed.{IsWellFormed}
use agentenv_skills_hub.Api.Handlers.Reads.{get_version}
use agentenv_skills_hub.Api.Handlers.Writes.{publish_version}
use mathlib.Core.List.Perm
use agentenv_skills_hub.Index.Queries.Once.{public_row}
use agentenv_skills_hub.Search.Lexical.{filter_map}
use mathlib.Core.List.{Perm}
use agentenv_skills_hub.Core.Auth
use agentenv_skills_hub.Core.Auth.{AuthContext}
use agentenv_skills_hub.Core.Model.{
  CompatibilityIndex, CompatibilitySkillHit, publisher, public, PublishSkillRequest, private,
}
use agentenv_skills_hub.Core.Service.Publish.{admission, admission-IsAdmitted}
use agentenv_skills_hub.Tests.Api.{
  runtime, store, empty_queue, published_db, full_queue, signed_request, api_code,
}
use agentenv_skills_hub.Api.State.{runtime_service}
use agentenv_skills_hub.Api.Server.Progress.{IsWelcome, publish_created}
use agentenv_skills_hub.Tests.Server.{server-IsDeployed, search_text, server-IsSole, world}
use agentenv_skills_hub.Index.Postgres.{visibility_text, new_record, skill_row, version_row}
use agentenv_skills_hub.Api.Server.{
  reply, hit, stored_version, for_get_version, for_search, Request, for_publish_version, respond,
}
use agentenv_skills_hub.Index.Queries.Unseen.{HidesName}
use agentenv_skills_hub.Api.Server.Unseen.{publish_unseen}
use agentenv_skills_hub.Index.Queries.Listed.{listed, listed_rows}
use agentenv_skills_hub.Index.Tables.{Db}
use agentenv_skills_hub.Index.Queries.{compatibility_index}
use agentenv_skills_hub.Index.Queries.Listing.{IsSeen, compatibility_index_lists}
use agentenv_skills_hub.Tests.Fixtures.{crates}
use mathlib.Core.List.{Mem}
use agentenv_skills_hub.Api.Server.Public.{respond_public}
use agentenv_skills_hub.Common.Text.{trim, text_eq, text}
use agentenv_skills_hub.Tests.Handlers.{server, signed_in, published_db-IsWellFormed}
use agentenv_skills_hub.Tests.Index.{index_code, empty_db-IsWellFormed, empty_db, calm_session}
use agentenv_skills_hub.Common.{map, [], ◌↔◌, ok, false, ok_or, any, ℕ, ◌≡◌, refl, none, some, ◌∷◌}

-- The same tables with a private skill of the same name, in another namespace.
abbrev secret_db : Db
secret_db = record published_db {
  skills =
      record (skill_row calm_session (text "other") private signed_request) { id = 5 }
      ∷ published_db.skills;
  skill_versions =
      record (version_row calm_session 5 (text "bob") signed_request) { id = 6 }
      ∷ published_db.skill_versions;
}

secret_rows : listed_rows published_db ≡ listed_rows secret_db
unfolding listed api_code
secret_rows = refl

abbrev review_search : Request ℕ
review_search =
    for_search (record { q = some (text "review"); query = none; namespace = none; limit = none })

respond_public_example :
    (respond server search_text review_search (published_db, full_queue)).0
    ≡ (respond server search_text review_search (secret_db, full_queue)).0
respond_public_example =
    respond_public server published_db secret_db secret_rows search_text review_search full_queue
      full_queue refl (λ e. cc)

-- A private publish under a new name, and what a search answers then.
abbrev private_publish : PublishSkillRequest
private_publish = record signed_request {
  manifest = record signed_request.manifest { name = text "secret-review" };
}

secret_db-IsWellFormed : IsWellFormed secret_db
unfolding any text_eq
secret_db-IsWellFormed = record {
  skill_ids = ((refl, tt), (tt, tt));
  skill_names = ((refl, tt), (tt, tt));
  version_ids = ((refl, tt), (tt, tt));
  version_keys = ((refl, tt), (tt, tt));
  references = (refl, (refl, tt));
}

-- The hit of the public skill, which is all that the index of these tables has.
abbrev public_hit : CompatibilitySkillHit
public_hit = record {
  name = text "code-review";
  version = text "1.2.0";
  description = some (text "Review code");
  registry = text "hub";
  digest = some signed_request.artifact.digest;
  signature_ed25519 = some (text "aa");
  public_key_ed25519 = some (text "bb");
}

abbrev secret_index : CompatibilityIndex
secret_index = record { skills = public_hit ∷ [] }

secret_index_run :
    compatibility_index crates (λ rows. rows) calm_session secret_db (text "hub") ≡ ok secret_index
unfolding index_code api_code
secret_index_run = refl

compatibility_index_lists_example :
    ((h : CompatibilitySkillHit) → Mem h secret_index.skills ↔ IsSeen secret_db (text "hub") h)
    × Perm secret_index.skills (
        map
          (agentenv_skills_hub.Index.Queries.hit (text "hub"))
          (filter_map (public_row secret_db.skills) secret_db.skill_versions))
compatibility_index_lists_example =
    compatibility_index_lists crates (λ rows. rows) (λ rows. Perm.refl rows) calm_session secret_db
      secret_db-IsWellFormed (text "hub") secret_index secret_index_run

secret-HidesName : HidesName (text "acme") (text "secret-review") published_db.skills
unfolding text_eq
secret-HidesName = ((λ e. cc), tt)

publish_unseen_example :
    (respond server search_text review_search
      (respond server search_text
        (for_publish_version
          (text "acme")
          (text "secret-review")
          (record { visibility = some private })
          signed_in
          private_publish)
        world).1).0
    ≡ (respond server search_text review_search world).0
publish_unseen_example =
    publish_unseen server server-IsSole search_text (text "acme") (text "secret-review")
      (record { visibility = some private }) signed_in private_publish review_search world
      published_db-IsWellFormed (λ e. cc) secret-HidesName refl (λ e. cc)

get_version_lem_example :
    get_version server secret_db (text "acme") (text "code-review") (text "1.2.0")
    ≡ ok_or
        (version_missing (text "code-review") (text "1.2.0"))
        (readable (text "acme") (text "code-review") (text "1.2.0") secret_db)
get_version_lem_example =
    get_version_lem server secret_db (λ rows. Perm.refl rows) (record { session = calm_session })
      refl secret_db-IsWellFormed (text "acme") (text "code-review") (text "1.2.0") refl

-- The first publish of a skill, and what a reader is answered then.
abbrev new_version : Request ℕ
new_version =
    for_publish_version (text "acme") (text "code-review") (record { visibility = some public })
      signed_in signed_request

created_reply :
    respond server search_text new_version (empty_db, empty_queue)
    ≡ (reply 201 (stored_version (new_record calm_session (text "acme") signed_request)), world)
unfolding respond api_code publish_version auth_from_headers header_value parse_role trim
created_reply = refl

publish_served_example :
    ((respond server search_text
        (for_get_version (text "acme") (text "code-review") (text "1.2.0"))
        world).0
      ≡ reply 200 (hit (hit_of_record (new_record calm_session (text "acme") signed_request))))
    × (signed_request.artifact.digest ≡ signed_request.artifact.digest)
unfolding any text_eq visibility_text
publish_served_example =
    publish_served server server-IsSole search_text (text "acme") (text "code-review")
      (record { visibility = some public }) signed_in signed_request
      (new_record calm_session (text "acme") signed_request) (empty_db, empty_queue) world
      created_reply (λ rows. Perm.refl rows) empty_db-IsWellFormed refl

-- Whom the headers name.
abbrev signed_auth : AuthContext
signed_auth = Auth.new (text "ann") (text "skills:publish" ∷ []) ((text "acme", publisher) ∷ [])

new_version-IsWelcome :
    IsWelcome server server-IsDeployed search_text signed_auth
      (text "acme")
      (text "ann")
      (record { visibility = some public })
      signed_in
      signed_request
      (empty_db, empty_queue)
unfolding any api_code admission auth_from_headers header_value parse_role trim
new_version-IsWelcome = record {
  read = refl;
  admitted =
      admission-IsAdmitted runtime.crates (runtime_service runtime calm_session store false)
        signed_auth (text "acme") public signed_request (text "ann") refl;
  keys = empty_db-IsWellFormed;
  calm = record { works = λ s. refl; alone = λ d. refl; new_skill = refl; new_version = refl };
  missing = refl;
  sound = refl;
}

publish_created_example :
    (respond server search_text new_version (empty_db, empty_queue)).0
    ≡ reply 201 (stored_version (new_record calm_session (text "acme") signed_request))
publish_created_example =
    publish_created server server-IsDeployed search_text signed_auth (text "acme") (text "ann")
      (record { visibility = some public }) signed_in signed_request (empty_db, empty_queue)
      new_version-IsWelcome
