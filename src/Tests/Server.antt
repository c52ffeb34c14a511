-- ===== src/Tests/Server.antt =====
-- The theorems about the whole server at concrete requests.
use agentenv_skills_hub.Api.Server.{
  Request, for_index_json, for_publish_version, for_yank_version, for_unyank_version, respond,
  respond_all,
}
use agentenv_skills_hub.Core.Model.{publisher}
use agentenv_skills_hub.Index.Postgres.{new_record}
use agentenv_skills_hub.Api.Routes.{get, to_index_json, build_router}
use agentenv_skills_hub.Core.Error.{permission_denied}
use mathlib.Core.Logic.Or
use agentenv_skills_hub.Core.Auth
use agentenv_skills_hub.Index.Postgres.Lookup.{lookup_version}
use mathlib.Core.List.{mem-cons, mem-cons_of_mem, Mem}
use agentenv_skills_hub.Api.Handlers.Reads.{Server}
use agentenv_skills_hub.Api.Server.Errors.{errors_change_nothing}
use agentenv_skills_hub.Index.Registry.Overlap.{stays, Holds}
use agentenv_skills_hub.Api.Server.Calls.{IsDeployed}
use agentenv_skills_hub.Api.Server.Kept.{respond_all-Holds, IsServing}
use agentenv_skills_hub.Index.Registry.{view}
use agentenv_skills_hub.Api.Server.Safe.{get_changes_nothing, routed}
use agentenv_skills_hub.Api.Handlers.Writes.{publish_version, World}
use agentenv_skills_hub.Core.Auth.{can_yank, AuthContext, can_publish}
use agentenv_skills_hub.Api.Handlers.{
  ApiResult, parse_role, header_value, HeaderMap, auth_from_headers,
}
use agentenv_skills_hub.Common.Text.{trim, text_eq, text, Text}
use agentenv_skills_hub.Api.Server.Apart.{respond_all_apart, IsSole}
use agentenv_skills_hub.Tests.Handlers.{server, signed_in, published_db-IsWellFormed}
use agentenv_skills_hub.Tests.Api.{
  published_db, full_queue, headers, signed_request, store, api_code,
}
use agentenv_skills_hub.Tests.Index.{calm_session}
use agentenv_skills_hub.Search.Vector
use agentenv_skills_hub.Common.{
  ◌∙◌, sym, err, arith, false, if◌then◌else◌, ℕ, List, ◌≡◌, refl, none, some, [], ◌∷◌, ok,
}

abbrev pub search_text : Vector.SearchError → Text
search_text e = text "similarity search failed"

abbrev pub world : World
world = (published_db, full_queue)

abbrev pub server-IsDeployed : IsDeployed server
server-IsDeployed = record {
  session = calm_session;
  registry = text "hub";
  allow_unsigned = false;
  store = store;
  search = none;
  configured = refl;
}

index_json-routed : Mem (get, to_index_json) (routed build_router)
unfolding routed build_router
index_json-routed = mem-cons_of_mem _ (mem-cons.1 (Or.inl refl))

get_changes_nothing_example : (respond server search_text for_index_json world).1 ≡ world
get_changes_nothing_example =
    get_changes_nothing server search_text for_index_json world index_json-routed

-- A publish without a subject.
abbrev anonymous_publish : Request ℕ
anonymous_publish =
    for_publish_version (text "acme") (text "code-review") (record { visibility = none }) headers
      signed_request

forbidden_run : (respond server search_text anonymous_publish world).0.status ≡ 403
unfolding respond api_code publish_version auth_from_headers header_value parse_role trim
forbidden_run = refl

errors_change_nothing_example : (respond server search_text anonymous_publish world).1 ≡ world
errors_change_nothing_example =
    errors_change_nothing server server-IsDeployed (λ d. refl) search_text world refl
      anonymous_publish (rw forbidden_run (omega arith))

server-IsServing : IsServing server
server-IsServing = record { deployed = server-IsDeployed; others = λ d. stays refl }

-- A yank by a publisher, and a publish of the same version without a subject.
abbrev steps : List (Server ℕ × Request ℕ)
steps =
    (
      server,
      for_yank_version (text "acme") (text "code-review") (text "1.2.0") signed_in
          (record { reason = none }),
    )
    ∷ (server, anonymous_publish)
    ∷ []

found_run :
    lookup_version (text "acme") (text "code-review") (text "1.2.0") published_db
    ≡ some (new_record calm_session (text "acme") signed_request)
unfolding api_code
found_run = refl

respond_all-Holds_example :
    Holds
      (text "acme")
      (text "code-review")
      (text "1.2.0")
      (new_record calm_session (text "acme") signed_request)
      (respond_all search_text steps world).0
respond_all-Holds_example =
    respond_all-Holds search_text steps (server-IsServing, (server-IsServing, tt)) world
      (text "acme") (text "code-review") (text "1.2.0")
      (new_record calm_session (text "acme") signed_request)
      (published_db-IsWellFormed, (none, none, found_run))

-- The headers of a publisher of another namespace.
abbrev elsewhere : HeaderMap
elsewhere name =
    if text_eq name (text "x-agentenv-subject")
    then some (ok (text "bob"))
    else if text_eq name (text "x-agentenv-scopes")
    then some (ok (text "skills:publish,skills:yank"))
    else if text_eq name (text "x-agentenv-roles")
    then some (ok (text "other:publisher"))
    else none

abbrev bob : AuthContext
bob =
    Auth.new (text "bob") (text "skills:publish" ∷ text "skills:yank" ∷ [])
      ((text "other", publisher) ∷ [])

elsewhere_run : auth_from_headers elsewhere ≡ ok bob
unfolding api_code auth_from_headers header_value parse_role trim
elsewhere_run = refl

bob_refused :
    (can_publish bob (text "acme") ≡ err (permission_denied (text "publish") (text "acme")))
    × (can_yank bob (text "acme") ≡ err (permission_denied (text "yank") (text "acme")))
unfolding api_code can_publish can_yank
bob_refused = (refl, refl)

bob_of_headers : (auth : AuthContext) → auth_from_headers elsewhere ≡ ok auth → auth ≡ bob
bob_of_headers auth h = ok_inj (sym h ∙ elsewhere_run)
  where
    ok_inj : {a b : AuthContext} → (◌≡◌ {A = ApiResult AuthContext} (ok a) (ok b)) → a ≡ b
    ok_inj e = cc

bob-foreign :
    (auth : AuthContext)
    → auth_from_headers elsewhere ≡ ok auth
    → ¬ (can_publish auth (text "acme") ≡ ok tt) × ¬ (can_yank auth (text "acme") ≡ ok tt)
bob-foreign auth h = rw (bob_of_headers auth h) (
  (λ p. absurd (ground (arith, p, bob_refused.0))),
  (λ p. absurd (ground (arith, p, bob_refused.1))),
)

abbrev pub server-IsSole : IsSole server
server-IsSole = record { deployed = server-IsDeployed; alone = λ d. refl }

-- He publishes in his namespace, and tries to unyank in the other.
abbrev bobs_steps : List (Server ℕ × Request ℕ)
bobs_steps =
    (
      server,
      for_publish_version (text "other") (text "code-review") (record { visibility = none })
          elsewhere signed_request,
    )
    ∷ (server, for_unyank_version (text "acme") (text "code-review") (text "1.2.0") elsewhere)
    ∷ []

respond_all_apart_example :
    view
      (respond_all search_text bobs_steps world).0
      (text "acme")
      (text "code-review")
      (text "1.2.0")
    ≡ view published_db (text "acme") (text "code-review") (text "1.2.0")
respond_all_apart_example =
    respond_all_apart (text "acme") (text "code-review") (text "1.2.0") search_text bobs_steps
      (
        (server-IsSole, λ auth h. (bob-foreign auth h).0),
        ((server-IsSole, λ auth h. (bob-foreign auth h).1), tt),
      )
      world published_db-IsWellFormed
