-- ===== src/Webhooks/Laws.antt =====
-- How long a failed delivery waits.
use agentenv_skills_hub.Webhooks.{retry_delay}
use agentenv_skills_hub.Common.{◌+◌, ◌≡◌, refl, arith, ◌≤◌, ◌*◌, min, ℕ}

long_delay : (attempts : ℕ) → 6 ≤ attempts → retry_delay attempts ≡ 64
unfolding retry_delay
long_delay attempts h = rw (capped attempts h) refl
  where
    capped : (n : ℕ) → 6 ≤ n → min n 6 ≡ 6
    capped n h = omega arith

-- The delay is a second at first, and doubles with every attempt until it is 64 seconds, which it
-- never exceeds; the power does not overflow.
pub retry_delay_lem :
    (attempts : ℕ)
    → (retry_delay 0 ≡ 1)
      × (retry_delay (attempts + 1) ≡ min (2 * retry_delay attempts) 64)
      × (retry_delay attempts ≤ 64)
unfolding retry_delay
retry_delay_lem ℕ.zero = (refl, refl, omega arith)
retry_delay_lem (ℕ.suc ℕ.zero) = (refl, refl, omega arith)
retry_delay_lem (ℕ.suc (ℕ.suc ℕ.zero)) = (refl, refl, omega arith)
retry_delay_lem (ℕ.suc (ℕ.suc (ℕ.suc ℕ.zero))) = (refl, refl, omega arith)
retry_delay_lem (ℕ.suc (ℕ.suc (ℕ.suc (ℕ.suc ℕ.zero)))) = (refl, refl, omega arith)
retry_delay_lem (ℕ.suc (ℕ.suc (ℕ.suc (ℕ.suc (ℕ.suc ℕ.zero))))) = (refl, refl, omega arith)
retry_delay_lem (ℕ.suc (ℕ.suc (ℕ.suc (ℕ.suc (ℕ.suc (ℕ.suc n)))))) =
    let k = (ℕ.suc (ℕ.suc (ℕ.suc (ℕ.suc (ℕ.suc (ℕ.suc n)))))) in
    (
      refl,
      rw (long_delay (k + 1) (omega arith), long_delay k (omega arith)) refl,
      rw (long_delay k (omega arith)) (omega arith),
    )
