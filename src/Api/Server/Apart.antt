-- ===== src/Api/Server/Apart.antt =====
-- Requests of callers without a right in a namespace.
use agentenv_skills_hub.Index.Registry.History.{unyank_fault}
use agentenv_skills_hub.Index.Registry.Yank.{yank-Marks}
use agentenv_skills_hub.Api.State.{pg_repository}
use agentenv_skills_hub.Common.{
  ◌∙◌, ap, All, List, Option-cases, ◌≢◌, ◌≡◌, refl, [], ◌∷◌, inl, inr, ok,
}
use agentenv_skills_hub.Api.State.Lawful.{update_apart, pg_repository-IsRepository}
use agentenv_skills_hub.Core.Service.Isolation.{IsRepository}
use agentenv_skills_hub.Index.Registry.{Registry, view}
use agentenv_skills_hub.Api.Handlers.{auth_from_headers}
use agentenv_skills_hub.Api.Server.Safe.{respond_reads, IsWrite-cases, answered-state, IsWrite}
use agentenv_skills_hub.Api.Handlers.Writes.{or_by_api, or_public, World}
use agentenv_skills_hub.Index.Postgres.WellFormed.{yank-IsWellFormed, IsWellFormed}
use agentenv_skills_hub.Core.Auth.{can_yank, can_publish, AuthContext}
use agentenv_skills_hub.Index.Postgres.{update_yank, Session}
use agentenv_skills_hub.Index.Tables.{Db}
use agentenv_skills_hub.Api.Server.Calls.{unyank_tables, yank_tables, publish_tables, IsDeployed}
use agentenv_skills_hub.Api.Handlers.Reads.{Server}
use agentenv_skills_hub.Common.Text.{Text}
use agentenv_skills_hub.Search.Vector
use agentenv_skills_hub.Api.Server.Safe
use agentenv_skills_hub.Index.Postgres
use agentenv_skills_hub.Api.Server.{
  respond_all, Request, respond, for_publish_version, for_yank_version, for_unyank_version,
}

-- A caller, as the headers say, who may not do in the namespace what the request is for.
abbrev pub IsForeign : {F32 : Type 0} → Text → Request F32 → Type 0
IsForeign n (for_publish_version namespace name query headers request) =
    (auth : AuthContext) → auth_from_headers headers ≡ ok auth → ¬ (can_publish auth n ≡ ok tt)
IsForeign n (for_yank_version namespace name version headers request) =
    (auth : AuthContext) → auth_from_headers headers ≡ ok auth → ¬ (can_yank auth n ≡ ok tt)
IsForeign n (for_unyank_version namespace name version headers) =
    (auth : AuthContext) → auth_from_headers headers ≡ ok auth → ¬ (can_yank auth n ≡ ok tt)
IsForeign n _ = Unit {0}

-- A server with a database, in which other sessions commit nothing in between.
pub record IsSole {F32 : Type 0} (server : Server F32) : Type 0 where
  pub deployed : IsDeployed server
  pub alone : (d : Db) → deployed.session.others d ≡ d

-- What is kept of the tables.
abbrev IsUnchanged : Text → Text → Text → Db → Db → Type 0
IsUnchanged n m v before after = IsWellFormed after × (view after n m v ≡ view before n m v)

lawful :
    {F32 : Type 0} {server : Server F32} (d : IsSole server)
    → IsRepository (pg_repository d.deployed.session) IsWellFormed view
lawful d = pg_repository-IsRepository d.deployed.session d.alone

module _ (n m v : Text) where
  unyank_apart :
      (session : Session) (namespace name version : Text) (db : Db)
      → IsWellFormed db
      → namespace ≢ n
      → IsUnchanged n m v db (Postgres.unyank_version session namespace name version db).1
  unyank_apart session namespace name version db w other = (
    (yank-IsWellFormed session namespace name version [] db w).1,
    elim (Option-cases (session.fault update_yank)) [
      | inl works ↦
          ap (λ (t : Registry). t n m v)
            (yank-Marks namespace name version db w session works []).1.changed
          ∙ update_apart namespace name version _ (view db) n m v other
      | inr (message, e) ↦
          ap (λ (d : Db). view d n m v) (unyank_fault session namespace name version db message e)
    ],
  )

  module _ {F32 : Type 0} (search_text : Vector.SearchError → Text) where
    write-IsUnchanged :
        (server : Server F32)
        → IsSole server
        → (request : Request F32) (world : World) → IsWellFormed world.0
        → IsForeign n request
        → IsWrite request
        → IsUnchanged n m v world.0 (respond server search_text request world).1.0
    unfolding respond
    write-IsUnchanged server d _ world w foreign
          (Safe.publishes namespace name query headers request) =
        elim (publish_tables server d.deployed headers namespace name query.visibility request
          world) [
            | inl e ↦ rw (answered-state _ _, e) (w, refl)
            | inr (auth, a, p, subject, e) ↦
                rw (answered-state _ _, e)
                  (
                    (lawful d).insert-IsSound namespace (or_public query.visibility) subject request
                        world.0 w,
                    (lawful d).insert_apart namespace (or_public query.visibility) subject request
                        world.0 n m v w (λ same. foreign auth a (rw same at p)),
                  )
          ]
    write-IsUnchanged server d _ world w foreign
          (Safe.yanks namespace name version headers request) =
        elim (yank_tables server d.deployed headers namespace name version request.reason world) [
          | inl e ↦ rw (answered-state _ _, e) (w, refl)
          | inr (auth, a, p, e) ↦
              rw (answered-state _ _, e)
                (
                  (lawful d).yank-IsSound namespace name version (or_by_api request.reason) world.0
                      w,
                  (lawful d).yank_apart namespace name version (or_by_api request.reason) world.0 n
                      m v w (λ same. foreign auth a (rw same at p)),
                )
        ]
    write-IsUnchanged server d _ world w foreign (Safe.unyanks namespace name version headers) =
        elim (unyank_tables server d.deployed headers namespace name version world) [
          | inl e ↦ rw (answered-state _ _, e) (w, refl)
          | inr (auth, a, p, e) ↦
              rw (answered-state _ _, e)
                (unyank_apart d.deployed.session namespace name version world.0 w
                  (λ same. foreign auth a (rw same at p)))
        ]

    respond-IsUnchanged :
        (server : Server F32)
        → IsSole server
        → (request : Request F32) (world : World) → IsWellFormed world.0
        → IsForeign n request
        → IsUnchanged n m v world.0 (respond server search_text request world).1.0
    respond-IsUnchanged server d request world w foreign = elim (IsWrite-cases request) [
      | inl write ↦ write-IsUnchanged server d request world w foreign write
      | inr read ↦ rw (respond_reads server search_text request world read) (w, refl)
    ]

    -- Whatever is asked of a server with a database, in whatever order, by callers who have no right
    -- in a namespace for what they ask, leaves every entry of the namespace as it is. The tables have
    -- their keys, and other sessions commit nothing in between.
    pub respond_all_apart :
        (steps : List (Server F32 × Request F32))
        → All (λ step. IsSole step.0 × IsForeign n step.1) steps
        → (world : World) → IsWellFormed world.0
        → view (respond_all search_text steps world).0 n m v ≡ view world.0 n m v
    unfolding respond_all
    respond_all_apart [] foreign world w = refl
    respond_all_apart ((server, request) ∷ steps) foreign world w =
        let (kept, same) = respond-IsUnchanged server foreign.0.0 request world w foreign.0.1 in
        respond_all_apart steps foreign.1 (respond server search_text request world).1 kept ∙ same
