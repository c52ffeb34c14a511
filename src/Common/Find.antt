-- ===== src/Common/Find.antt =====
-- What `find`, `any` and `keep` say of a list.
use mathlib.Core.Option
use mathlib.Core.Option.{Option}
use agentenv_skills_hub.Common.{
  [], ◌∷◌, some, none, inl, inr, true, false, refl, arith, ◌∙◌, ap, Bool-cases, map, List, keep,
  ◌≡◌, Bool, any, find,
}

pub find-true {ℓ} :
    {A : Type ℓ} (p : A → Bool) (xs : List A) {a : A} → find p xs ≡ some a → p a ≡ true
unfolding find
find-true p [] h = cc
find-true p (x ∷ xs) h = elim (Bool-cases (p x)) [
  | inl e ↦ ground (arith, e)
  | inr e ↦ find-true p xs (ground (arith, e))
]

pub any_of_find {ℓ} :
    {A : Type ℓ} (p : A → Bool) (xs : List A) (a : A) → find p xs ≡ some a → any p xs ≡ true
unfolding find any
any_of_find p [] a h = cc
any_of_find p (x ∷ xs) a h = elim (Bool-cases (p x)) [
  | inl e ↦ ground (arith, e)
  | inr e ↦ ground (arith, e, any_of_find p xs a)
]

pub none-some {ℓ} : {A : Type ℓ} (a : A) → ◌≡◌ {A = Option A} none (some a) → ⊥
none-some a h = cc

pub false-true : ◌≡◌ {A = Bool} false true → ⊥
false-true h = cc

-- A test that the row that is found passes, some row passes.
pub any_at_find {ℓ} :
    {A : Type ℓ} (p q : A → Bool) (xs : List A) (a : A)
    → find p xs ≡ some a
    → q a ≡ true
    → any q xs ≡ true
unfolding find any
any_at_find {A} p q [] a h k = cc
any_at_find {A} p q (x ∷ xs) a h k = elim (Bool-cases (p x)) [
  | inl e ↦ rw (ap q (some_inj x a (rw e at h)) ∙ k) refl
  | inr e ↦ ground (arith, any_at_find p q xs a (rw e at h) k)
]
  where
    some_inj : (x a : A) → some x ≡ some a → x ≡ a
    some_inj x a h = cc

-- A new row that the test does not accept is not found.
pub find_skip {ℓ} :
    {A : Type ℓ} (p : A → Bool) (x : A) (xs : List A) → p x ≡ false → find p (x ∷ xs) ≡ find p xs
unfolding find
find_skip p x xs h = rw h

pub find_first {ℓ} :
    {A : Type ℓ} (p : A → Bool) (x : A) (xs : List A) → p x ≡ true → find p (x ∷ xs) ≡ some x
unfolding find
find_first p x xs h = rw h

pub find-map {ℓ} :
    {A : Type ℓ} (p : A → Bool) (g : A → A) (xs : List A) (a : A)
    → ((x : A) → p (g x) ≡ p x)
    → find p xs ≡ some a
    → find p (map g xs) ≡ some (g a)
unfolding find
find-map p g [] a same h = cc
find-map p g (x ∷ xs) a same h = elim (Bool-cases (p x)) [
  | inl e ↦ ground (arith, e, same x)
  | inr e ↦ ground (arith, e, same x, find-map p g xs a same)
]

pub find-map_eq {ℓ} :
    {A : Type ℓ} (p : A → Bool) (g : A → A) (xs : List A)
    → ((x : A) → p (g x) ≡ p x)
    → find p (map g xs) ≡ Option.map g (find p xs)
unfolding find
find-map_eq p g [] same = refl
find-map_eq p g (x ∷ xs) same = ground (arith, same x, find-map_eq p g xs same)

pub found_of_any {ℓ} :
    {A : Type ℓ} (p : A → Bool) (xs : List A) → any p xs ≡ true → (a : A) × (find p xs ≡ some a)
unfolding any find
found_of_any p [] h = absurd (cc)
found_of_any p (x ∷ xs) h = elim (Bool-cases (p x)) [
  | inl e ↦ (x, rw e refl)
  | inr e ↦ let (a, f) = found_of_any p xs (rw e at h) in (a, rw e f)
]

pub keep_none {ℓ} : {A : Type ℓ} (p : A → Bool) (xs : List A) → any p xs ≡ false → keep p xs ≡ []
unfolding any keep
keep_none p [] h = refl
keep_none p (x ∷ xs) h = ground (arith, keep_none p xs)
