-- ===== src/Api/Server/Errors.antt =====
-- Replies with an error status.
use agentenv_skills_hub.Api.Server.Outcomes.{
  publish_version-IsAtomic, yank_version-IsAtomic, unyank_version-IsAtomic,
}
use agentenv_skills_hub.Api.Server.Calls.{IsDeployed}
use agentenv_skills_hub.Api.Handlers.Reads.{Server}
use agentenv_skills_hub.Api.Server.Safe.{
  IsWrite, publishes, yanks, unyanks, IsWrite-cases, respond_reads,
}
use agentenv_skills_hub.Search.Vector
use agentenv_skills_hub.Api.Server.{answered, respond, Reply, stored_version, nothing, Request}
use agentenv_skills_hub.Api.Handlers.{ApiError}
use agentenv_skills_hub.Api.Handlers.Writes.{publish_version, yank_version, unyank_version, World}
use agentenv_skills_hub.Core.Model.{SkillVersionRecord}
use agentenv_skills_hub.Common.Text.{Text}
use agentenv_skills_hub.Index.Tables.{Db}
use agentenv_skills_hub.Common.Atomic.{IsAtomic}
use agentenv_skills_hub.Common.{arith, ◌≤◌, ◌<◌, ℕ, err, Result, false, ◌≡◌, ok, inl, inr}

-- The reply made of an outcome.
answered-IsAtomic :
    {A : Type 0} (of_answer : A → Reply) (P : A → Type 0) (world : World)
    (x : Result ApiError A × World)
    → ((a : A) → P a → (of_answer a).status < 400)
    → IsAtomic P world x
    → 400 ≤ (answered of_answer x).0.status
    → (answered of_answer x).1 ≡ world
answered-IsAtomic of_answer P world (ok a, after) fine h k = absurd (omega (arith, fine a h, k))
answered-IsAtomic of_answer P world (err e, after) fine h k = h

below_400 : {n m : ℕ} → n ≡ m → m < 400 → n < 400
below_400 p q = rw p q

module _ {F32 : Type 0} (server : Server F32) (d : IsDeployed server)
    (alone : (s : Db) → d.session.others s ≡ s) (search_text : Vector.SearchError → Text)
    (world : World) (sound : world.1.is_poisoned ≡ false) where
  write_error :
      (request : Request F32)
      → IsWrite request
      → 400 ≤ (respond server search_text request world).0.status
      → (respond server search_text request world).1 ≡ world
  unfolding respond
  write_error _ (publishes namespace name query headers request) k =
      answered-IsAtomic {A = ℕ × SkillVersionRecord}
        (λ a. record { status = a.0; body = stored_version a.1 }) (λ a. a.0 ≡ 201) world
        (publish_version server.runtime.crates server.state headers namespace name query.visibility
          request world)
        (λ a p. below_400 p (omega arith))
        (rw d.configured (
          publish_version-IsAtomic server.runtime d.session alone d.allow_unsigned d.store world
            sound d.registry d.search headers namespace name query.visibility request))
        k
  write_error _ (yanks namespace name version headers request) k =
      answered-IsAtomic {A = ℕ} (λ a. record { status = a; body = nothing }) (λ a. a ≡ 204) world
        (yank_version server.runtime.crates server.state headers namespace name version
          request.reason world)
        (λ a p. below_400 p (omega arith))
        (rw d.configured (
          yank_version-IsAtomic server.runtime d.session alone d.allow_unsigned d.store world sound
            d.registry d.search headers namespace name version request.reason))
        k
  write_error _ (unyanks namespace name version headers) k =
      answered-IsAtomic {A = ℕ} (λ a. record { status = a; body = nothing }) (λ a. a ≡ 204) world
        (unyank_version server.runtime.crates server.state headers namespace name version world)
        (λ a p. below_400 p (omega arith))
        (rw d.configured (
          unyank_version-IsAtomic server.runtime d.session alone d.allow_unsigned d.store world
            sound d.registry d.search headers namespace name version))
        k

  -- A reply of a server with a database that has an error status means that nothing was changed,
  -- neither the tables nor the queue, whatever was asked for. Other sessions commit nothing in
  -- between, and the lock of the queue is not poisoned.
  pub errors_change_nothing :
      (request : Request F32)
      → 400 ≤ (respond server search_text request world).0.status
      → (respond server search_text request world).1 ≡ world
  errors_change_nothing request k = elim (IsWrite-cases request) [
    | inl write ↦ write_error request write k
    | inr read ↦ respond_reads server search_text request world read
  ]
