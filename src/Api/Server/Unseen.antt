-- ===== src/Api/Server/Unseen.antt =====
-- Publishing what is not public, as the readers see it.
use agentenv_skills_hub.Api.Server.Public.{respond_public}
use agentenv_skills_hub.Api.Routes.{to_similar_search}
use agentenv_skills_hub.Api.Server.Calls.{publish_tables}
use agentenv_skills_hub.Index.Postgres.WellFormed.{IsWellFormed}
use agentenv_skills_hub.Api.Handlers.Writes.{or_public, World}
use agentenv_skills_hub.Api.Handlers.{HeaderMap}
use agentenv_skills_hub.Index.Postgres.{skill_row, Session, visibility_text}
use agentenv_skills_hub.Api.Handlers.Reads.{Server}
use agentenv_skills_hub.Common.Text.{Text, text_eq}
use agentenv_skills_hub.Search.Vector
use agentenv_skills_hub.Index.Queries.Unseen.{HidesName, insert_version-Unseen}
use agentenv_skills_hub.Index.Queries.Listed.{is_public, listed_rows}
use agentenv_skills_hub.Api.Server.Safe.{answered-state, writes, handler_of}
use agentenv_skills_hub.Api.Server.Apart.{IsSole}
use agentenv_skills_hub.Api.Server.{Request, PublishQuery, for_publish_version, respond}
use agentenv_skills_hub.Core.Model.{PublishSkillRequest, Visibility, public, private, unlisted}
use agentenv_skills_hub.Common.{false, ◌≡◌, ◌≢◌, refl, inl, inr}

skill_row-hidden :
    (session : Session) (namespace : Text) (visibility : Visibility) (request : PublishSkillRequest)
    → visibility ≢ public
    → is_public (skill_row session namespace visibility request) ≡ false
unfolding text_eq visibility_text
skill_row-hidden session namespace public request h = absurd (h refl)
skill_row-hidden session namespace private request h = refl
skill_row-hidden session namespace unlisted request h = refl

module _ {F32 : Type 0} (server : Server F32) (d : IsSole server)
    (search_text : Vector.SearchError → Text) (namespace name : Text) (query : PublishQuery)
    (headers : HeaderMap) (request : PublishSkillRequest) where
  publish_listed :
      (world : World)
      → IsWellFormed world.0
      → or_public query.visibility ≢ public
      → HidesName namespace request.manifest.name world.0.skills
      → listed_rows
          (respond server search_text
            (for_publish_version namespace name query headers request)
            world).1.0
        ≡ listed_rows world.0
  unfolding respond
  publish_listed world w not_public hides =
      elim (publish_tables server d.deployed headers namespace name query.visibility request
        world) [
          | inl e ↦ rw (answered-state _ _, e) refl
          | inr (auth, _, _, subject, e) ↦
              rw (answered-state _ _, e)
                (insert_version-Unseen d.deployed.session d.alone namespace
                  (or_public query.visibility) subject request
                  (skill_row-hidden d.deployed.session namespace (or_public query.visibility)
                    request not_public)
                  (listed_rows world.0) world.0 (w, hides, refl)).2
        ]

  -- A publish on a server with a database that is not for the public, of a skill that is not
  -- public, is seen by no reader, whatever its outcome: every request other than a write or a
  -- similarity search is answered as before. The tables have their keys, and other sessions commit
  -- nothing in between.
  pub publish_unseen :
      (reading : Request F32) (world : World)
      → IsWellFormed world.0
      → or_public query.visibility ≢ public
      → HidesName namespace request.manifest.name world.0.skills
      → writes (handler_of reading) ≡ false
      → handler_of reading ≢ to_similar_search
      → (respond server search_text reading
          (respond server search_text
            (for_publish_version namespace name query headers request)
            world).1).0
        ≡ (respond server search_text reading world).0
  publish_unseen reading world w not_public hides reads lexical =
      let after =
        (respond server search_text (for_publish_version namespace name query headers request)
          world).1 in
      respond_public server after.0 world.0 (publish_listed world w not_public hides) search_text
        reading after.1 world.1 reads lexical
