-- ===== src/Api/Handlers/Writes/Guards.antt =====
-- Who may write, and what a publish that is answered with 201 has done.
use agentenv_skills_hub.Common.Text.Laws.{text_eq_iff}
use agentenv_skills_hub.Index.Postgres.WellFormed.{IsWellFormed}
use agentenv_skills_hub.Index.Postgres.Lookup.{lookup_version}
use agentenv_skills_hub.Api.State.Published.{publish-HasDigest, HasDigest}
use agentenv_skills_hub.Index.Tables.{Db}
use agentenv_skills_hub.Core.Service.{publish, yank}
use agentenv_skills_hub.Core.Auth.Access.{anonymous_access}
use agentenv_skills_hub.Core.Model.{SkillVersionRecord, PublishSkillRequest, Visibility}
use agentenv_skills_hub.Core.Auth.{can_publish, AuthContext, anonymous}
use agentenv_skills_hub.Api.Handlers.Writes.{
  or_public, public, publish_version, unyank_version, yank_version, World,
}
use agentenv_skills_hub.Common.Text.{text_eq, text, Text}
use agentenv_skills_hub.Index.Postgres.{Session}
use agentenv_skills_hub.Api.Handlers.{auth_from_headers, HeaderMap, ApiError}
use agentenv_skills_hub.Api.State.App.{with_repository, SemanticSearch, AppState}
use agentenv_skills_hub.Core.Crates.{Crates}
use agentenv_skills_hub.Api.State.{
  RuntimeWebhookQueue, runtime_service, fetch_verified, RuntimeArtifactStore, Runtime,
}
use agentenv_skills_hub.Common.{
  ◌∙◌, sym, List, ℕ, Option-cases, Option, Bool, Result, ◌≡◌, refl, ok, err, none, some, arith, inl,
  inr, true, false, Bool-cases, Result-cases, ap,
}

abbrev pub is_err : {A : Type 0} → Result ApiError A → Bool
is_err (ok a) = false
is_err (err e) = true

-- An error, with nothing changed.
abbrev pub IsRefused : {A : Type 0} → World → Result ApiError A × World → Type 0
IsRefused world (a, after) = (is_err a ≡ true) × (after ≡ world)

module _ {F32 : Type 0} (crates : Crates) (state : AppState F32) (headers : HeaderMap)
    (unnamed : headers (text "x-agentenv-subject") ≡ none) where
  anonymous-headers : auth_from_headers headers ≡ ok anonymous
  unfolding auth_from_headers
  anonymous-headers = rw unnamed refl

  module _ (world : World) (namespace name version : Text) where
    publish-IsRefused :
        (visibility : Option Visibility) (request : PublishSkillRequest)
        → IsRefused world
            (publish_version crates state headers namespace name visibility request world)
    unfolding publish_version
    publish-IsRefused visibility request =
        let (_, p, _, _) = anonymous_access namespace public in
        elim (Bool-cases (text_eq request.manifest.name name)) [
          | inl e ↦ rw (e, anonymous-headers, p) (refl, refl)
          | inr e ↦ rw e (refl, refl)
        ]

    yank-IsRefused :
        (reason : Option Text)
        → IsRefused world (yank_version crates state headers namespace name version reason world)
    unfolding yank_version yank
    yank-IsRefused reason =
        let (_, _, y, _) = anonymous_access namespace public in
        elim (Option-cases state.service) [
          | inl e ↦ rw (anonymous-headers, e) (refl, refl)
          | inr (service, e) ↦ rw (anonymous-headers, e, y) (refl, refl)
        ]

    unyank-IsRefused :
        IsRefused world (unyank_version crates state headers namespace name version world)
    unfolding unyank_version
    unyank-IsRefused =
        let (_, _, y, _) = anonymous_access namespace public in
        rw (anonymous-headers, y) (refl, refl)

  -- A request without a subject is refused by each of the three writing handlers, whatever other
  -- headers it has and however the server is configured, and changes neither tables nor queue.
  pub anonymous-writes :
      (world : World) (namespace name version : Text) (visibility : Option Visibility)
      (request : PublishSkillRequest) (reason : Option Text)
      → IsRefused world
          (publish_version crates state headers namespace name visibility request world)
        × IsRefused world (yank_version crates state headers namespace name version reason world)
        × IsRefused world (unyank_version crates state headers namespace name version world)
  anonymous-writes world namespace name version visibility request reason = (
    publish-IsRefused world namespace name version visibility request,
    yank-IsRefused world namespace name version reason,
    unyank-IsRefused world namespace name version,
  )

module _ {F32 : Type 0} (runtime : Runtime) (session : Session) (registry : Text)
    (allow_unsigned : Bool) (store : RuntimeArtifactStore) (search : Option (SemanticSearch F32))
    (headers : HeaderMap) (namespace name : Text) (visibility : Option Visibility)
    (request : PublishSkillRequest) where
  abbrev pub server_state : AppState F32
  server_state =
      with_repository runtime (record { session = session }) registry allow_unsigned store search

  -- What a created version has passed.
  pub record IsCreated (stored : SkillVersionRecord) (after : Db) : Type 0 where
    pub auth : AuthContext
    pub content : List ℕ
    pub named : request.manifest.name ≡ name
    pub read : auth_from_headers headers ≡ ok auth
    pub allowed : can_publish auth namespace ≡ ok tt
    pub fetched : fetch_verified runtime store request.artifact ≡ ok content
    pub verified : HasDigest runtime store request.artifact content
    pub found : lookup_version namespace name request.manifest.version after ≡ some stored

  pub published_call :
      (auth : AuthContext) (world world' : World) (status : ℕ) (stored : SkillVersionRecord)
      → auth_from_headers headers ≡ ok auth
      → publish_version runtime.crates server_state headers namespace name visibility request world
        ≡ (ok (status, stored), world')
      → (status ≡ 201)
        × (text_eq request.manifest.name name ≡ true)
        × (can_publish auth namespace ≡ ok tt)
        × (publish runtime.crates
              (runtime_service runtime session store allow_unsigned)
              auth
              namespace
              (or_public visibility)
              request
              world
            ≡ (ok stored, world'))
  unfolding publish_version
  published_call auth world world' status stored a h =
      (ground arith, ground arith, ground arith, ground arith)

  pub read_headers :
      (world world' : World) (status : ℕ) (stored : SkillVersionRecord)
      → publish_version runtime.crates server_state headers namespace name visibility request world
        ≡ (ok (status, stored), world')
      → (auth : AuthContext) × (auth_from_headers headers ≡ ok auth)
  unfolding publish_version
  read_headers world world' status stored h = elim (Result-cases (auth_from_headers headers)) [
    | inl k ↦ k
    | inr (e, k) ↦ absurd (ground arith)
  ]

  -- A publish that is answered with success is answered with 201; the manifest has the name of the
  -- path, the caller of the headers may publish in the namespace, bytes with the digest that was
  -- asked for were fetched, and the version is now found under the namespace and the name of the
  -- path, as the record that was answered. The tables have their keys, and other sessions commit
  -- nothing in between.
  pub publish_version-IsCreated :
      (db db' : Db) (queue queue' : RuntimeWebhookQueue) (status : ℕ) (stored : SkillVersionRecord)
      → IsWellFormed db
      → ((d : Db) → session.others d ≡ d)
      → publish_version runtime.crates server_state headers namespace name visibility request
          (db, queue)
        ≡ (ok (status, stored), (db', queue'))
      → (status ≡ 201) × IsCreated stored db'
  publish_version-IsCreated db db' queue queue' status stored w quiet h =
      let (auth, a) = read_headers (db, queue) (db', queue') status stored h in
      let (created, n, c, call) = published_call auth (db, queue) (db', queue') status stored a h in
      let named = (text_eq_iff request.manifest.name name).0 n in
      let ((content, f, g), _, l, _) =
        publish-HasDigest runtime session store allow_unsigned auth namespace (or_public visibility)
          request db db' queue queue' stored w quiet call in
      (
        created,
        record {
          auth = auth;
          content = content;
          named = named;
          read = a;
          allowed = c;
          fetched = f;
          verified = g;
          found =
              ap (λ (m : Text). lookup_version namespace m request.manifest.version db') (sym named)
              ∙ l;
        },
      )
