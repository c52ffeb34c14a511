-- ===== src/Api/Handlers/Writes/Yanked.antt =====
-- What a yank that is answered with 204 has done.
use agentenv_skills_hub.Common.Text.Laws.{text_eq_refl}
use agentenv_skills_hub.Index.Registry.Yank.{yank-Marks}
use agentenv_skills_hub.Api.State.Published.{queued_of_enqueue}
use agentenv_skills_hub.Core.Service.{yank}
use agentenv_skills_hub.Index.Postgres.Yank.{marked}
use agentenv_skills_hub.Index.Postgres.Lookup.{lookup_version}
use agentenv_skills_hub.Core.Auth.{can_yank, AuthContext}
use agentenv_skills_hub.Api.Handlers.{auth_from_headers, HeaderMap}
use agentenv_skills_hub.Core.Error.{HubResult, skill_version_not_found}
use agentenv_skills_hub.Api.State.App.{with_repository, SemanticSearch}
use agentenv_skills_hub.Index.Registry.{view, update, Registry}
use agentenv_skills_hub.Index.Postgres.WellFormed.{IsWellFormed}
use agentenv_skills_hub.Index.Tables.{Db}
use agentenv_skills_hub.Core.Model.{SkillVersionRecord, OffsetDateTime}
use agentenv_skills_hub.Common.{
  refl, sym, ◌∙◌, ap, [], inr, inl, arith, ◌∷◌, Result-cases, Option-cases, ◌++◌, err, ℕ, is_some,
  some, if◌then◌else◌, ◌≡◌, ok, Bool,
}
use agentenv_skills_hub.Common.Text.{Text}
use agentenv_skills_hub.Index.Postgres.{update_yank, Session}
use agentenv_skills_hub.Api.State.{
  runtime_service, RuntimeWebhookQueue, RuntimeArtifactStore, Runtime,
}
use agentenv_skills_hub.Index.Postgres
use agentenv_skills_hub.Api.Handlers.Writes.{World, yank_version, or_by_api}
use agentenv_skills_hub.Core.Service.Yank.{yank-ok, yanked}
use mathlib.Core.Option
use mathlib.Core.Option.{Option}

marked_of_Marks :
    (namespace name version : Text) (at : Option OffsetDateTime) (reason : Option Text)
    (before after : Registry) (answer : HubResult Unit)
    → answer ≡ ok tt
    → answer ≡ (
        if is_some (before namespace name version)
        then ok tt
        else err (skill_version_not_found namespace name version))
    → after
      ≡ update namespace name version
          (Option.map (marked at reason) (before namespace name version))
          before
    → (stored : SkillVersionRecord) × (before namespace name version ≡ some stored)
      × (after namespace name version ≡ some (marked at reason stored))
marked_of_Marks namespace name version at reason before after answer works answered changed =
    elim (Option-cases (before namespace name version)) [
      | inl e ↦ absurd (ground arith)
      | inr (stored, e) ↦ (
        stored,
        e,
        ap (λ (t : Registry). t namespace name version) changed
            ∙ rw (text_eq_refl namespace, text_eq_refl name, text_eq_refl version, e) refl,
      )
    ]

-- A yank in the database that succeeds has found the version, and marked it.
marked_of_yank :
    (session : Session) (namespace name version reason : Text) (db db' : Db)
    → IsWellFormed db
    → Postgres.yank_version session namespace name version reason db ≡ (ok tt, db')
    → (stored : SkillVersionRecord) × (lookup_version namespace name version db ≡ some stored)
      × (lookup_version namespace name version db'
          ≡ some (marked (some session.now) (some reason) stored))
unfolding Postgres.yank_version
marked_of_yank session namespace name version reason db db' w h =
    elim (Option-cases (session.fault update_yank)) [
      | inr (message, e) ↦ absurd (ground arith)
      | inl works ↦
          let m = (yank-Marks namespace name version db w session works reason).0 in
          marked_of_Marks namespace name version (some session.now) (some reason) (view db) _
            (Postgres.yank_version session namespace name version reason db).0
            (ap (λ (x : HubResult Unit × Db). x.0) h) m.answered
            (ap (λ (x : HubResult Unit × Db). view x.1) (sym h) ∙ m.changed)
    ]

module _ {F32 : Type 0} (runtime : Runtime) (session : Session) (registry : Text)
    (allow_unsigned : Bool) (store : RuntimeArtifactStore) (search : Option (SemanticSearch F32))
    (headers : HeaderMap) (namespace name version : Text) (reason : Option Text) where
  -- What a yanked version has passed, and what is left behind.
  pub record IsYanked (before after : Db) (queue queue' : RuntimeWebhookQueue) : Type 0 where
    pub auth : AuthContext
    pub stored : SkillVersionRecord
    pub read : auth_from_headers headers ≡ ok auth
    pub allowed : can_yank auth namespace ≡ ok tt
    pub present : lookup_version namespace name version before ≡ some stored
    pub found :
        lookup_version namespace name version after
        ≡ some (marked (some session.now) (some (or_by_api reason)) stored)
    pub queued : queue'.events ≡ queue.events ++ yanked auth namespace name version ∷ []

  yanked_call :
      (auth : AuthContext) (world world' : World) (status : ℕ)
      → auth_from_headers headers ≡ ok auth
      → yank_version runtime.crates
          (with_repository runtime
            (record { session = session })
            registry
            allow_unsigned
            store
            search)
          headers
          namespace
          name
          version
          reason
          world
        ≡ (ok status, world')
      → (status ≡ 204)
        × (yank runtime.crates
              (runtime_service runtime session store allow_unsigned)
              auth
              namespace
              name
              version
              (or_by_api reason)
              world
            ≡ (ok tt, world'))
  unfolding yank_version
  yanked_call auth world world' status a h = (ground arith, ground arith)

  yank_headers :
      (world world' : World) (status : ℕ)
      → yank_version runtime.crates
          (with_repository runtime
            (record { session = session })
            registry
            allow_unsigned
            store
            search)
          headers
          namespace
          name
          version
          reason
          world
        ≡ (ok status, world')
      → (auth : AuthContext) × (auth_from_headers headers ≡ ok auth)
  unfolding yank_version
  yank_headers world world' status h = elim (Result-cases (auth_from_headers headers)) [
    | inl k ↦ k
    | inr (e, k) ↦ absurd (ground arith)
  ]

  -- A yank that is answered with success is answered with 204; the caller of the headers may yank in
  -- the namespace, the version was there and is now marked with the time and the reason, which is
  -- `yanked by API` where none was given, and the event of the caller is queued. The tables have
  -- their keys.
  pub yank_version-IsYanked :
      (db db' : Db) (queue queue' : RuntimeWebhookQueue) (status : ℕ)
      → IsWellFormed db
      → yank_version runtime.crates
          (with_repository runtime
            (record { session = session })
            registry
            allow_unsigned
            store
            search)
          headers
          namespace
          name
          version
          reason
          (db, queue)
        ≡ (ok status, (db', queue'))
      → (status ≡ 204) × IsYanked db db' queue queue'
  yank_version-IsYanked db db' queue queue' status w h =
      let (auth, a) = yank_headers (db, queue) (db', queue') status h in
      let (answered, call) = yanked_call auth (db, queue) (db', queue') status a h in
      let (allowed, y, q) =
        yank-ok runtime.crates (runtime_service runtime session store allow_unsigned) auth namespace
          name version (or_by_api reason) db db' queue queue' call in
      let (stored, e, m) =
        marked_of_yank session namespace name version (or_by_api reason) db db' w y in
      (
        answered,
        record {
          auth = auth;
          stored = stored;
          read = a;
          allowed = allowed;
          present = e;
          found = m;
          queued = queued_of_enqueue runtime session store allow_unsigned _ queue queue' q;
        },
      )
