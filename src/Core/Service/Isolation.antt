-- ===== src/Core/Service/Isolation.antt =====
-- What the service of crates/hub-core/src/service.rs asks of a repository, and who may change what
-- through it.
use agentenv_skills_hub.Core.Service.Yank.{
  yank_admission, yank_store, yank-admission, yank_admission-allowed,
}
use agentenv_skills_hub.Core.Error.{HubError}
use agentenv_skills_hub.Core.Service.Publish.{
  publish-admission, admission-IsAdmitted, admission, store,
}
use agentenv_skills_hub.Common.State.{Run, Run-cases, pure}
use agentenv_skills_hub.Common.State
use agentenv_skills_hub.Common.{
  refl, ◌∙◌, ap, All, [], inr, inl, Result-cases, ◌⊎◌, ◌∷◌, ok, ◌≢◌, ◌≡◌, List, Option,
}
use agentenv_skills_hub.Core.Model.{SkillVersionRecord, PublishSkillRequest, Visibility}
use agentenv_skills_hub.Core.Crates.{Crates}
use agentenv_skills_hub.Core.Auth.{can_yank, can_publish, AuthContext}
use agentenv_skills_hub.Common.Text.{Text}
use agentenv_skills_hub.Core.Service.{
  on_queue, on_repo, published, yank, HubService, HubRepository, publish,
}

-- The laws that a client may use: `view` is the repository as a function from a namespace, a name
-- and a version.
pub record IsRepository {R : Type 0} (repo : HubRepository R) (IsSound : R → Type 0)
    (view : R → Text → Text → Text → Option SkillVersionRecord) : Type 0 where
  pub insert-IsSound :
      (namespace : Text) (visibility : Visibility) (published_by : Text)
      (request : PublishSkillRequest) (r : R)
      → IsSound r
      → IsSound (repo.insert_version namespace visibility published_by request r).1
  pub yank-IsSound :
      (namespace name version reason : Text) (r : R)
      → IsSound r
      → IsSound (repo.yank_version namespace name version reason r).1
  pub insert_apart :
      (namespace : Text) (visibility : Visibility) (published_by : Text)
      (request : PublishSkillRequest) (r : R) (n m v : Text)
      → IsSound r
      → namespace ≢ n
      → view (repo.insert_version namespace visibility published_by request r).1 n m v
        ≡ view r n m v
  pub yank_apart :
      (namespace name version reason : Text) (r : R) (n m v : Text)
      → IsSound r
      → namespace ≢ n
      → view (repo.yank_version namespace name version reason r).1 n m v ≡ view r n m v

pub data Call : Type 0 where
  publishing : AuthContext → (namespace : Text) → Visibility → PublishSkillRequest → Call
  yanking : AuthContext → (namespace name version reason : Text) → Call

-- The caller may neither publish nor yank in the namespace.
abbrev pub IsStranger : Text → Call → Type 0
IsStranger n (publishing auth namespace visibility request) = ¬ (can_publish auth n ≡ ok tt)
IsStranger n (yanking auth namespace name version reason) = ¬ (can_yank auth n ≡ ok tt)

module _ (crates : Crates) {R W : Type 0} (service : HubService R W) where
  -- The state after the calls; an answer that is an error does not end the sequence.
  unfoldable pub apply : Call → R × W → R × W
  apply (publishing auth namespace visibility request) s =
      (publish crates service auth namespace visibility request s).1
  apply (yanking auth namespace name version reason) s =
      (yank crates service auth namespace name version reason s).1

  unfoldable pub run : List Call → R × W → R × W
  unfolding apply
  run [] s = s
  run (call ∷ calls) s = run calls (apply call s)

  queued_repo :
      {A B : Type 0} (m : Run R HubError A) (next : A → Run W HubError Unit) (b : A → B) (s : R × W)
      → (State.◌>>=◌ (on_repo m) (λ a. State.◌>>◌ (on_queue (next a)) (pure (b a))) s).1.0
        ≡ (m s.0).1
  queued_repo m next b (r, w) = elim (Run-cases (m r)) [
    | inl (a, r', k) ↦ elim (Run-cases (next a w)) [
      | inl (u, w', j) ↦ rw (k, j) refl
      | inr (e, w', j) ↦ rw (k, j) refl
    ]
    | inr (e, r', k) ↦ rw k refl
  ]

  pub publish_repo :
      (auth : AuthContext) (namespace : Text) (visibility : Visibility)
      (request : PublishSkillRequest) (s : R × W)
      → ((publish crates service auth namespace visibility request s).1.0 ≡ s.0)
        ⊎ ((subject : Text) × (can_publish auth namespace ≡ ok tt)
            × ((publish crates service auth namespace visibility request s).1.0
                ≡ (service.repo.insert_version namespace visibility subject request s.0).1))
  unfolding store
  publish_repo auth namespace visibility request s =
      elim (Result-cases (admission crates service auth namespace visibility request)) [
        | inl (subject, a) ↦ inr (
          subject,
          (admission-IsAdmitted crates service auth namespace visibility request subject a).allowed,
          rw (publish-admission crates service auth namespace visibility request s, a)
              (queued_repo (service.repo.insert_version namespace visibility subject request)
                (λ stored. service.webhook_queue.enqueue (published namespace subject stored))
                (λ stored. stored) s),
        )
        | inr (e, a) ↦
            inl (rw (publish-admission crates service auth namespace visibility request s, a) refl)
      ]

  pub yank_repo :
      (auth : AuthContext) (namespace name version reason : Text) (s : R × W)
      → ((yank crates service auth namespace name version reason s).1.0 ≡ s.0)
        ⊎ ((can_yank auth namespace ≡ ok tt)
            × ((yank crates service auth namespace name version reason s).1.0
                ≡ (service.repo.yank_version namespace name version reason s.0).1))
  unfolding yank_store
  yank_repo auth namespace name version reason s =
      elim (Result-cases (yank_admission crates service auth namespace name version reason)) [
        | inl (u, a) ↦ inr (
          yank_admission-allowed crates service auth namespace name version reason a,
          rw (yank-admission crates service auth namespace name version reason s, a)
              (elim (Run-cases (service.repo.yank_version namespace name version reason s.0)) [
                | inl (x, r', k) ↦ rw k refl
                | inr (e, r', k) ↦ rw k refl
              ]),
        )
        | inr (e, a) ↦
            inl (rw (yank-admission crates service auth namespace name version reason s, a) refl)
      ]

  module _ {IsSound : R → Type 0} {view : R → Text → Text → Text → Option SkillVersionRecord}
      (lawful : IsRepository service.repo IsSound view) where
    apply-IsSound : (call : Call) (s : R × W) → IsSound s.0 → IsSound (apply call s).0
    unfolding apply
    apply-IsSound (publishing auth namespace visibility request) s sound =
        elim (publish_repo auth namespace visibility request s) [
          | inl e ↦ rw e sound
          | inr (subject, _, e) ↦
              rw e (lawful.insert-IsSound namespace visibility subject request s.0 sound)
        ]
    apply-IsSound (yanking auth namespace name version reason) s sound =
        elim (yank_repo auth namespace name version reason s) [
          | inl e ↦ rw e sound
          | inr (_, e) ↦ rw e (lawful.yank-IsSound namespace name version reason s.0 sound)
        ]

    module _ (n m v : Text) where
      apply_apart :
          (call : Call) (s : R × W)
          → IsSound s.0
          → IsStranger n call
          → view (apply call s).0 n m v ≡ view s.0 n m v
      unfolding apply
      apply_apart (publishing auth namespace visibility request) s sound stranger =
          elim (publish_repo auth namespace visibility request s) [
            | inl e ↦ ap (λ r. view r n m v) e
            | inr (subject, allowed, e) ↦
                ap (λ r. view r n m v) e
                ∙ lawful.insert_apart namespace visibility subject request s.0 n m v sound
                    (λ same. stranger (rw same at allowed))
          ]
      apply_apart (yanking auth namespace name version reason) s sound stranger =
          elim (yank_repo auth namespace name version reason s) [
            | inl e ↦ ap (λ r. view r n m v) e
            | inr (allowed, e) ↦
                ap (λ r. view r n m v) e
                ∙ lawful.yank_apart namespace name version reason s.0 n m v sound
                    (λ same. stranger (rw same at allowed))
          ]

      -- Callers who may not write in a namespace leave its entries as they are, whatever they
      -- publish and yank, in whatever order and with whatever outcome, if the repository is lawful.
      pub run_apart :
          (calls : List Call) (s : R × W)
          → IsSound s.0
          → All (IsStranger n) calls
          → view (run calls s).0 n m v ≡ view s.0 n m v
      unfolding run
      run_apart [] s sound strangers = refl
      run_apart (call ∷ calls) s sound strangers =
          run_apart calls (apply call s) (apply-IsSound call s sound) strangers.1
          ∙ apply_apart call s sound strangers.0
