-- ===== src/Api/Server/Outcomes.antt =====
-- The outcomes of the writing calls and handlers: a result, or an error and nothing changed. Other
-- sessions commit nothing in between, and the queue's lock is not poisoned.
use agentenv_skills_hub.Api.Handlers.{auth_from_headers, HeaderMap}
use agentenv_skills_hub.Api.State.App.{with_repository, AppState, SemanticSearch}
use agentenv_skills_hub.Common.State.{◌>>◌, Run-cases, Run, pure}
use agentenv_skills_hub.Api.Handlers.Writes.{
  or_public, or_by_api, publish_version, yank_version, unyank_version, answer_from, World,
}
use agentenv_skills_hub.Index.Postgres
use agentenv_skills_hub.Core.Service.Yank.{yank_admission, yank_store, yank-admission, yanked}
use agentenv_skills_hub.Core.Service.Publish.{store, admission, publish-admission}
use agentenv_skills_hub.Core.Service.{
  yank, WebhookEvent, published, HubService, publish, on_queue, on_repo,
}
use agentenv_skills_hub.Core.Model.{SkillVersionRecord, PublishSkillRequest, Visibility}
use agentenv_skills_hub.Common.Text.{text_eq, Text}
use agentenv_skills_hub.Core.Auth.{can_publish, can_yank, AuthContext}
use agentenv_skills_hub.Index.Postgres.{insert_version, Session}
use agentenv_skills_hub.Core.Error.{HubError}
use agentenv_skills_hub.Index.Tables.{Db}
use agentenv_skills_hub.Api.State.{
  runtime_service, RuntimeArtifactStore, RuntimeWebhookQueue, Runtime, enqueue,
}
use agentenv_skills_hub.Index.Postgres.Undone.{
  unyank_version-err, yank_version-err, insert_version_undone,
}
use agentenv_skills_hub.Common.Atomic.{IsAtomic, IsAtomic-of_undone}
use agentenv_skills_hub.Common.State
use agentenv_skills_hub.Common.{
  ℕ, Bool-cases, Option, err, Result, Result-cases, ap, [], ◌∷◌, ◌++◌, Bool, false, ◌≡◌, refl, ok,
  inl, inr,
}

abbrev Any : {A : Type 0} → A → Type 0
Any a = Unit {0}

-- Where the queue's lock is not poisoned, an event is queued.
pub enqueue_works :
    (event : WebhookEvent) (queue : RuntimeWebhookQueue)
    → queue.is_poisoned ≡ false
    → enqueue event queue ≡ (ok tt, record queue { events = queue.events ++ event ∷ [] })
unfolding enqueue
enqueue_works event queue sound = rw sound refl

ok-IsAtomic :
    {S E A : Type 0} (before : S) (a : A) (x : Result E A × S) → x.0 ≡ ok a → IsAtomic Any before x
ok-IsAtomic before a (ok b, after) h = tt
ok-IsAtomic before a (err e, after) h = absurd (cc)

-- A call of the repository, and something after it that works.
followed-IsAtomic :
    {A B : Type 0} (m : Run Db HubError A) (next : A → Run World HubError B) (f : A → B) (db : Db)
    (queue : RuntimeWebhookQueue)
    → ((a : A) (after : Db) → (next a (after, queue)).0 ≡ ok (f a))
    → IsAtomic Any db (m db)
    → IsAtomic Any (db, queue) (State.◌>>=◌ (on_repo m) next (db, queue))
followed-IsAtomic m next f db queue works h = elim (Run-cases (m db)) [
  | inl (a, after, e) ↦ rw e (ok-IsAtomic (db, queue) (f a) (next a (after, queue)) (works a after))
  | inr (error, after, e) ↦ rw e (ap (λ d. (d, queue)) (rw e at h))
]

-- A call of the service, and the answer made of its result.
called-IsAtomic :
    {A B : Type 0} (Q : B → Type 0) (before : World) (f : A → B) (x : Result HubError A × World)
    → ((a : A) → Q (f a))
    → IsAtomic Any before x
    → IsAtomic Q before (State.continue (λ a. pure (f a)) (answer_from x))
called-IsAtomic Q before f (ok a, after) g h = g a
called-IsAtomic Q before f (err e, after) g h = h

module _ (runtime : Runtime) (session : Session) (alone : (d : Db) → session.others d ≡ d)
    (allow_unsigned : Bool) (artifacts : RuntimeArtifactStore) (world : World)
    (sound : world.1.is_poisoned ≡ false) where
  abbrev service : HubService Db RuntimeWebhookQueue
  service = runtime_service runtime session artifacts allow_unsigned

  publish-IsAtomic :
      (auth : AuthContext) (namespace : Text) (visibility : Visibility)
      (request : PublishSkillRequest)
      → IsAtomic Any world (publish runtime.crates service auth namespace visibility request world)
  unfolding store
  publish-IsAtomic auth namespace visibility request =
      rw (publish-admission runtime.crates service auth namespace visibility request world)
        (elim (Result-cases (admission runtime.crates service auth namespace visibility request)) [
          | inr (e, a) ↦ rw a refl
          | inl (subject, a) ↦ rw a (
              followed-IsAtomic (insert_version session namespace visibility subject request)
                (λ stored.
                  State.◌>>◌ (on_queue (enqueue (published namespace subject stored)))
                    (pure stored))
                (λ stored. stored) world.0 world.1
                (λ stored after.
                  rw (enqueue_works (published namespace subject stored) world.1 sound) refl)
                (IsAtomic-of_undone world.0 _ (λ e after h.
                  insert_version_undone session namespace visibility subject request e world.0 after
                    alone h)))
        ])

  yank-IsAtomic :
      (auth : AuthContext) (namespace name version reason : Text)
      → IsAtomic Any world (yank runtime.crates service auth namespace name version reason world)
  unfolding yank_store
  yank-IsAtomic auth namespace name version reason =
      rw (yank-admission runtime.crates service auth namespace name version reason world)
        (elim (Result-cases
          (yank_admission runtime.crates service auth namespace name version reason)) [
            | inr (e, a) ↦ rw a refl
            | inl (u, a) ↦ rw a (
                followed-IsAtomic (Postgres.yank_version session namespace name version reason)
                  (λ _. on_queue (enqueue (yanked auth namespace name version))) (λ u. tt) world.0
                  world.1
                  (λ u after.
                    rw (enqueue_works (yanked auth namespace name version) world.1 sound) refl)
                  (IsAtomic-of_undone world.0 _ (λ e after h.
                    yank_version-err session namespace name version reason e world.0 after h)))
          ])

  module _ {F32 : Type 0} (registry : Text) (search : Option (SemanticSearch F32))
      (headers : HeaderMap) (namespace name : Text) where
    abbrev deployed : AppState F32
    deployed =
        with_repository runtime (record { session = session }) registry allow_unsigned artifacts
          search

    pub publish_version-IsAtomic :
        (visibility : Option Visibility) (request : PublishSkillRequest)
        → IsAtomic
            (λ a. a.0 ≡ 201)
            world
            (publish_version runtime.crates deployed headers namespace name visibility request
              world)
    unfolding publish_version
    publish_version-IsAtomic visibility request =
        elim (Bool-cases (text_eq request.manifest.name name)) [
          | inr e ↦ rw e refl
          | inl e ↦ elim (Result-cases (auth_from_headers headers)) [
            | inr (error, a) ↦ rw (e, a) refl
            | inl (auth, a) ↦ elim (Result-cases (can_publish auth namespace)) [
              | inr (error, p) ↦ rw (e, a, p) refl
              | inl (u, p) ↦
                  rw (e, a, p)
                    (called-IsAtomic (λ (a : ℕ × SkillVersionRecord). a.0 ≡ 201) world
                      (λ stored. (201, stored)) _ (λ stored. refl)
                      (publish-IsAtomic auth namespace (or_public visibility) request))
            ]
          ]
        ]

    pub yank_version-IsAtomic :
        (version : Text) (reason : Option Text)
        → IsAtomic
            (λ a. a ≡ 204)
            world
            (yank_version runtime.crates deployed headers namespace name version reason world)
    unfolding yank_version
    yank_version-IsAtomic version reason = elim (Result-cases (auth_from_headers headers)) [
      | inr (error, a) ↦ rw a refl
      | inl (auth, a) ↦ rw a (
          called-IsAtomic (λ (a : ℕ). a ≡ 204) world (λ _. 204) _ (λ _. refl)
            (yank-IsAtomic auth namespace name version (or_by_api reason)))
    ]

    pub unyank_version-IsAtomic :
        (version : Text)
        → IsAtomic
            (λ a. a ≡ 204)
            world
            (unyank_version runtime.crates deployed headers namespace name version world)
    unfolding unyank_version
    unyank_version-IsAtomic version = elim (Result-cases (auth_from_headers headers)) [
      | inr (error, a) ↦ rw a refl
      | inl (auth, a) ↦ elim (Result-cases (can_yank auth namespace)) [
        | inr (error, p) ↦ rw (a, p) refl
        | inl (u, p) ↦
            elim (Run-cases (Postgres.unyank_version session namespace name version world.0)) [
              | inl (u, after, k) ↦ rw (a, p, k) refl
              | inr (e, after, k) ↦
                  rw (a, p, k)
                    (ap (λ d. (d, world.1))
                      (unyank_version-err session namespace name version e world.0 after k))
            ]
      ]
    ]
