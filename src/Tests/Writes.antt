-- ===== src/Tests/Writes.antt =====
-- The theorems about the service and the yanking handler of hub-api at a concrete server.
use agentenv_skills_hub.Index.Postgres
use agentenv_skills_hub.Api.Handlers.Writes.{yank_version}
use agentenv_skills_hub.Api.Handlers.Writes.Yanked.{IsYanked, yank_version-IsYanked}
use agentenv_skills_hub.Api.Handlers.{HeaderMap, auth_from_headers, parse_role, header_value}
use agentenv_skills_hub.Api.State.App.{AppState, with_repository}
use agentenv_skills_hub.Api.State.Lawful.{pg_repository-IsRepository}
use agentenv_skills_hub.Api.State.{runtime_service, RuntimeWebhookQueue}
use agentenv_skills_hub.Core.Service.Isolation.{run_apart, run, Call, publishing, yanking}
use agentenv_skills_hub.Core.Service.Yank.{yanked}
use agentenv_skills_hub.Core.Service.{HubService}
use agentenv_skills_hub.Index.Registry.{view}
use agentenv_skills_hub.Index.Tables.{Db, set_yank}
use agentenv_skills_hub.Core.Auth
use agentenv_skills_hub.Core.Auth.{AuthContext, anonymous, can_publish, can_yank}
use agentenv_skills_hub.Core.Model.{public, publisher}
use agentenv_skills_hub.Tests.Api.{runtime, store, signed_request, api_code, empty_queue}
use agentenv_skills_hub.Tests.Index.{calm_session, filled_db, filled_db-IsWellFormed}
use agentenv_skills_hub.Tests.Fixtures.{crates, request}
use agentenv_skills_hub.Common.Text.{text, text_eq, trim}
use agentenv_skills_hub.Common.{List, [], ◌∷◌, none, some, ok, ◌≡◌, refl, false, ℕ, if◌then◌else◌}

abbrev service : HubService Db RuntimeWebhookQueue
service = runtime_service runtime calm_session store false

-- A publisher of another namespace.
abbrev stranger : AuthContext
stranger =
    Auth.new (text "eve") (text "skills:publish" ∷ text "skills:yank" ∷ [])
      ((text "evil", publisher) ∷ [])

-- Calls in the namespace, and a publish in the caller's own.
abbrev calls : List Call
calls =
    yanking stranger (text "acme") (text "code-review") (text "1.2.0") (text "gone")
    ∷ publishing anonymous (text "acme") public request
    ∷ publishing stranger (text "evil") public signed_request
    ∷ []

stranger-publish : ¬ (can_publish stranger (text "acme") ≡ ok tt)
unfolding api_code
stranger-publish h = cc

stranger-yank : ¬ (can_yank stranger (text "acme") ≡ ok tt)
unfolding api_code
stranger-yank h = cc

anonymous-publish : ¬ (can_publish anonymous (text "acme") ≡ ok tt)
unfolding api_code
anonymous-publish h = cc

run_apart_example :
    view
      (run crates service calls (filled_db, empty_queue)).0
      (text "acme")
      (text "code-review")
      (text "1.2.0")
    ≡ view filled_db (text "acme") (text "code-review") (text "1.2.0")
run_apart_example =
    run_apart crates service (pg_repository-IsRepository calm_session (λ d. refl)) (text "acme")
      (text "code-review") (text "1.2.0") calls (filled_db, empty_queue) filled_db-IsWellFormed
      (stranger-yank, (anonymous-publish, (stranger-publish, tt)))

-- The headers of a caller who yanks.
abbrev yanker : HeaderMap
yanker name =
    if text_eq name (text "x-agentenv-subject")
    then some (ok (text "ann"))
    else if text_eq name (text "x-agentenv-scopes")
    then some (ok (text "skills:yank"))
    else if text_eq name (text "x-agentenv-roles")
    then some (ok (text "acme:publisher"))
    else none

abbrev yanker_auth : AuthContext
yanker_auth = Auth.new (text "ann") (text "skills:yank" ∷ []) ((text "acme", publisher) ∷ [])

abbrev yanked_db : Db
yanked_db =
    (set_yank (some 7) (some (text "yanked by API")) (text "acme") (text "code-review")
      (text "1.2.0") filled_db).1

abbrev yanked_queue : RuntimeWebhookQueue
yanked_queue = record empty_queue {
  events = yanked yanker_auth (text "acme") (text "code-review") (text "1.2.0") ∷ [];
}

abbrev state : AppState ℕ
state = with_repository runtime (record { session = calm_session }) (text "hub") false store none

yank_run :
    yank_version runtime.crates state yanker
      (text "acme")
      (text "code-review")
      (text "1.2.0")
      none
      (filled_db, empty_queue)
    ≡ (ok 204, (yanked_db, yanked_queue))
unfolding api_code auth_from_headers header_value parse_role trim yank_version set_yank
    Postgres.yank_version
yank_run = refl

yank_version-IsYanked_example :
    (◌≡◌ {A = ℕ} 204 204)
    × IsYanked {F32 = ℕ} runtime calm_session
        (text "hub")
        false
        store
        none
        yanker
        (text "acme")
        (text "code-review")
        (text "1.2.0")
        none
        filled_db
        yanked_db
        empty_queue
        yanked_queue
yank_version-IsYanked_example =
    yank_version-IsYanked {F32 = ℕ} runtime calm_session (text "hub") false store none yanker
      (text "acme") (text "code-review") (text "1.2.0") none filled_db yanked_db empty_queue
      yanked_queue 204 filled_db-IsWellFormed yank_run
