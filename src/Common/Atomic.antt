-- ===== src/Common/Atomic.antt =====
-- Code that changes the state or fails, never both.
use agentenv_skills_hub.Common.State
use agentenv_skills_hub.Common.State.{Run, continue, pure, lift, ◌>>=◌}
use agentenv_skills_hub.Common.{Result, ok, err, refl, ◌≡◌}

-- The outcome of a call: a result that is as it should be, or an error and the state from before.
abbrev pub IsAtomic : {S E A : Type 0} → (A → Type 0) → S → Result E A × S → Type 0
IsAtomic P before (ok a, after) = P a
IsAtomic P before (err e, after) = after ≡ before

module _ {S E A B : Type 0} (Q : B → Type 0) (before : S) where
  -- A check, and what follows it.
  pub check-IsAtomic :
      (r : Result E A) (next : A → Run S E B)
      → ((a : A) → r ≡ ok a → IsAtomic Q before (next a before))
      → IsAtomic Q before (State.◌>>=◌ (lift r) next before)
  check-IsAtomic (ok a) next h = h a refl
  check-IsAtomic (err e) next h = refl

  -- An answer that is made of a call's result.
  pub answer-IsAtomic :
      {P : A → Type 0} (f : A → B) (x : Result E A × S)
      → ((a : A) → P a → Q (f a))
      → IsAtomic P before x
      → IsAtomic Q before (continue (λ a. pure (f a)) x)
  answer-IsAtomic f (ok a, after) g h = g a h
  answer-IsAtomic f (err e, after) g h = h

pub IsAtomic-of_undone :
    {S E A : Type 0} (before : S) (x : Result E A × S)
    → ((e : E) (after : S) → x ≡ (err e, after) → after ≡ before)
    → IsAtomic (λ _. Unit {0}) before x
IsAtomic-of_undone before (ok a, after) h = tt
IsAtomic-of_undone before (err e, after) h = h e after refl
