-- ===== src/Api/Server/Kept.antt =====
-- What the server's requests, from whomever, do to the published versions.
use agentenv_skills_hub.Api.Server.Safe.{
  IsWrite, IsWrite-cases, respond_reads, writes, handler_of, answered-state,
}
use agentenv_skills_hub.Api.Server.Safe
use agentenv_skills_hub.Index.Tables.{Db}
use agentenv_skills_hub.Core.Model.{SkillVersionRecord}
use agentenv_skills_hub.Api.Server.Calls.{IsDeployed, unyank_tables, yank_tables, publish_tables}
use agentenv_skills_hub.Api.Handlers.Writes.{or_by_api, or_public, World}
use agentenv_skills_hub.Api.Handlers.Reads.{Server}
use agentenv_skills_hub.Common.Text.{Text}
use agentenv_skills_hub.Index.Registry.Overlap.{
  Reaches, stays, then_, publishes, yanks, unyanks, Holds, Reaches-Holds,
}
use agentenv_skills_hub.Api.Server.{Request, respond, respond_all}
use agentenv_skills_hub.Search.Vector
use agentenv_skills_hub.Common.{◌∙◌, ap, All, List, [], ◌∷◌, refl, inl, inr}

-- A server with a database, whose other sessions reach by calls of the repository what they commit
-- inside of its publishes.
pub record IsServing {F32 : Type 0} (server : Server F32) : Type 0 where
  pub deployed : IsDeployed server
  pub others : (d : Db) → Reaches d (deployed.session.others d)

module _ {F32 : Type 0} (search_text : Vector.SearchError → Text) where
  write-Reaches :
      (server : Server F32)
      → IsServing server
      → (request : Request F32) (world : World) → IsWrite request
      → Reaches world.0 (respond server search_text request world).1.0
  unfolding respond
  write-Reaches server d _ world (Safe.publishes namespace name query headers request) =
      elim (publish_tables server d.deployed headers namespace name query.visibility request
        world) [
          | inl e ↦ stays (ap (λ (w : World). w.0) (answered-state _ _) ∙ e)
          | inr (auth, _, _, subject, e) ↦
              publishes d.deployed.session namespace (or_public query.visibility) subject request
                d.others (ap (λ (w : World). w.0) (answered-state _ _) ∙ e)
        ]
  write-Reaches server d _ world (Safe.yanks namespace name version headers request) =
      elim (yank_tables server d.deployed headers namespace name version request.reason world) [
        | inl e ↦ stays (ap (λ (w : World). w.0) (answered-state _ _) ∙ e)
        | inr (auth, _, _, e) ↦
            yanks d.deployed.session namespace name version (or_by_api request.reason)
              (ap (λ (w : World). w.0) (answered-state _ _) ∙ e)
      ]
  write-Reaches server d _ world (Safe.unyanks namespace name version headers) =
      elim (unyank_tables server d.deployed headers namespace name version world) [
        | inl e ↦ stays (ap (λ (w : World). w.0) (answered-state _ _) ∙ e)
        | inr (auth, _, _, e) ↦
            unyanks d.deployed.session namespace name version
              (ap (λ (w : World). w.0) (answered-state _ _) ∙ e)
      ]

  respond-Reaches :
      (server : Server F32)
      → IsServing server
      → (request : Request F32) (world : World)
      → Reaches world.0 (respond server search_text request world).1.0
  respond-Reaches server d request world = elim (IsWrite-cases request) [
    | inl write ↦ write-Reaches server d request world write
    | inr read ↦
        stays (ap (λ (w : World). w.0) (respond_reads server search_text request world read))
  ]

  respond_all-Reaches :
      (steps : List (Server F32 × Request F32))
      → All (λ step. IsServing step.0) steps
      → (world : World) → Reaches world.0 (respond_all search_text steps world).0
  unfolding respond_all
  respond_all-Reaches [] serving world = stays refl
  respond_all-Reaches ((server, request) ∷ steps) serving world =
      then_ (respond-Reaches server serving.0 request world)
        (respond_all-Reaches steps serving.1 (respond server search_text request world).1)

  -- Whatever requests a server with a database answers, in whatever order, from whomever and with
  -- whatever replies, while other sessions publish, yank and unyank inside of its publishes: the
  -- tables keep their keys, and a published version is found with nothing changed but the yank
  -- mark.
  pub respond_all-Holds :
      (steps : List (Server F32 × Request F32))
      → All (λ step. IsServing step.0) steps
      → (world : World) (namespace name version : Text) (stored : SkillVersionRecord)
      → Holds namespace name version stored world.0
      → Holds namespace name version stored (respond_all search_text steps world).0
  respond_all-Holds steps serving world namespace name version stored h =
      Reaches-Holds namespace name version stored (respond_all-Reaches steps serving world) h
