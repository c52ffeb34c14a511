-- ===== src/Api/Server/Progress.antt =====
-- A publish of a new version by a caller who may, where everything works.
use agentenv_skills_hub.Index.Registry.Progress.{IsCalm, insert_version-new}
use agentenv_skills_hub.Index.Registry.{view}
use agentenv_skills_hub.Index.Postgres.WellFormed.{IsWellFormed}
use agentenv_skills_hub.Index.Postgres.{insert_version, new_record}
use agentenv_skills_hub.Core.Service.Publish.{
  IsAdmitted, admission_of_IsAdmitted, publish-admission, store,
}
use agentenv_skills_hub.Core.Service.{published, HubService, publish}
use agentenv_skills_hub.Core.Auth.{AuthContext}
use agentenv_skills_hub.Core.Model.{SkillVersionRecord, PublishSkillRequest}
use agentenv_skills_hub.Api.State.{RuntimeWebhookQueue, runtime_service}
use agentenv_skills_hub.Api.Handlers.{HeaderMap, auth_from_headers}
use agentenv_skills_hub.Api.Handlers.Writes.{World, or_public, publish_version}
use agentenv_skills_hub.Api.Handlers.Reads.{Server}
use agentenv_skills_hub.Api.Server.{
  PublishQuery, for_publish_version, reply, stored_version, respond,
}
use agentenv_skills_hub.Api.Server.Calls.{IsDeployed}
use agentenv_skills_hub.Common.State.{Run-cases}
use agentenv_skills_hub.Search.Vector
use agentenv_skills_hub.Common.Text.{Text}
use agentenv_skills_hub.Index.Tables.{Db}
use agentenv_skills_hub.Core.Error.{HubResult}
use agentenv_skills_hub.Api.Server.Outcomes.{enqueue_works}
use agentenv_skills_hub.Common.Text.Laws.{text_eq_refl}
use agentenv_skills_hub.Common.{
  [], ◌∷◌, ◌++◌, false, ◌≡◌, refl, inl, inr, ok, none, arith, ap, sym, ◌∙◌,
}

module _ {F32 : Type 0} (server : Server F32) (deployed : IsDeployed server)
    (search_text : Vector.SearchError → Text) (auth : AuthContext) (namespace subject : Text)
    (query : PublishQuery) (headers : HeaderMap) (request : PublishSkillRequest)
    (world : World) where
  abbrev pub service : HubService Db RuntimeWebhookQueue
  service = runtime_service server.runtime deployed.session deployed.store deployed.allow_unsigned

  -- Nothing stands in the way of the publish.
  pub record IsWelcome : Type 0 where
    pub read : auth_from_headers headers ≡ ok auth
    pub admitted :
        IsAdmitted server.runtime.crates service auth namespace
          (or_public query.visibility)
          request
          subject
    pub keys : IsWellFormed world.0
    pub calm : IsCalm deployed.session world.0
    pub missing : view world.0 namespace request.manifest.name request.manifest.version ≡ none
    pub sound : world.1.is_poisoned ≡ false

  module _ (w : IsWelcome) where
    stored_new :
        (stored : SkillVersionRecord) (after : Db)
        → insert_version deployed.session namespace
            (or_public query.visibility)
            subject
            request
            world.0
          ≡ (ok stored, after)
        → stored ≡ new_record deployed.session namespace request
    stored_new stored after e =
        let same : ok stored ≡ ok (new_record deployed.session namespace request) =
          ap (λ (x : HubResult SkillVersionRecord × Db). x.0) (sym e)
          ∙ insert_version-new deployed.session namespace (or_public query.visibility) subject
              request world.0 w.keys w.calm w.missing in
        cc

    inserted_new :
        (after : Db) × (insert_version deployed.session namespace
            (or_public query.visibility)
            subject
            request
            world.0
          ≡ (ok (new_record deployed.session namespace request), after))
    inserted_new =
        elim (Run-cases (
          insert_version deployed.session namespace (or_public query.visibility) subject request
            world.0)) [
              | inl (stored, after, e) ↦
                  (after, e ∙ ap (λ r. (ok r, after)) (stored_new stored after e))
              | inr (error, after, e) ↦
                  let works =
                    insert_version-new deployed.session namespace (or_public query.visibility)
                      subject request world.0 w.keys w.calm w.missing in
                  absurd (ground (arith, e, works))
            ]

    published_new :
        (world' : World) × (publish server.runtime.crates service auth namespace
            (or_public query.visibility)
            request
            world
          ≡ (ok (new_record deployed.session namespace request), world'))
    unfolding store
    published_new =
        let (after, i) = inserted_new in
        let event = published namespace subject (new_record deployed.session namespace request) in
        (
          (after, record world.1 { events = world.1.events ++ event ∷ [] }),
          publish-admission server.runtime.crates service auth namespace
                (or_public query.visibility) request world
              ∙ rw
                  (
                    admission_of_IsAdmitted server.runtime.crates service auth namespace
                        (or_public query.visibility) request subject w.admitted,
                    i,
                    enqueue_works event world.1 w.sound,
                  )
                  refl,
        )

    -- A publish of a version that is not there, by a caller who is read from the headers and may
    -- publish in the namespace, with a valid request that is signed unless unsigned artifacts are
    -- allowed, an artifact that is fetched and a signature that is trusted, is answered with 201 and
    -- the record that the request describes. No statement fails, the ids that are drawn are new,
    -- other sessions commit nothing in between, the tables have their keys, and the lock of the queue
    -- is not poisoned.
    pub publish_created :
        (respond server search_text
          (for_publish_version namespace request.manifest.name query headers request)
          world).0
        ≡ reply 201 (stored_version (new_record deployed.session namespace request))
    unfolding respond publish_version
    publish_created =
        let (world', p) = published_new in
        rw (deployed.configured, text_eq_refl request.manifest.name, w.read, w.admitted.allowed, p)
          refl
