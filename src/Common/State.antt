-- ===== src/Common/State.antt =====
-- Code that changes state and may fail: the new state and a result. A failure keeps what was
-- written before it.
use mathlib.Core.Path.{◌≡◌, refl}
use mathlib.Core.Logic.{◌⊎◌, inl, inr}
use agentenv_skills_hub.Common.Fallible.{Result, ok, err}

abbrev pub Run {ℓ} : Type ℓ → Type ℓ → Type ℓ → Type ℓ
Run S E A = S → Result E A × S

abbrev pub continue {ℓ} : {S E A B : Type ℓ} → (A → Run S E B) → Result E A × S → Result E B × S
continue f (ok a, s) = f a s
continue f (err e, s) = (err e, s)

-- `first?` in the rest of a function that changes the state.
infixl 5 ◌>>=◌ ◌>>◌
abbrev pub ◌>>=◌ {ℓ} : {S E A B : Type ℓ} → Run S E A → (A → Run S E B) → Run S E B
◌>>=◌ first next s = continue next (first s)

abbrev pub ◌>>◌ {ℓ} : {S E A B : Type ℓ} → Run S E A → Run S E B → Run S E B
first >> rest = first >>= (λ _. rest)

abbrev pub pure {ℓ} : {S E A : Type ℓ} → A → Run S E A
pure a s = (ok a, s)

-- A computation that reads and writes no state.
abbrev pub lift {ℓ} : {S E A : Type ℓ} → Result E A → Run S E A
lift r s = (r, s)

-- To split on the outcome of a call.
pub Run-cases {ℓ} :
    {S E A : Type ℓ} (x : Result E A × S)
    → ((a : A) × (s : S) × (x ≡ (ok a, s))) ⊎ ((e : E) × (s : S) × (x ≡ (err e, s)))
Run-cases (ok a, s) = inl (a, s, refl)
Run-cases (err e, s) = inr (e, s, refl)
