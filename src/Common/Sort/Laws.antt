-- ===== src/Common/Sort/Laws.antt =====
-- The result of a sort is a permutation of its input, in order.
use mathlib.Core.Path.{◌≡◌}
use mathlib.Core.Logic.{inl, inr}
use mathlib.Core.Bool.{Bool, true, false}
use mathlib.Core.List.{List, [], ◌∷◌, Perm}
use mathlib.Core.List.Perm
use agentenv_skills_hub.Common.Tests.{Bool-cases}
use agentenv_skills_hub.Common.Lists.{All}
use agentenv_skills_hub.Common.Sort.{insert_sorted, sort, IsSorted}

module _ {ℓ} {A : Type ℓ} (le : A → A → Bool) where
  insert_sorted-perm : (a : A) (xs : List A) → Perm (insert_sorted le a xs) (a ∷ xs)
  unfolding insert_sorted
  insert_sorted-perm a [] = Perm.refl (a ∷ [])
  insert_sorted-perm a (x ∷ xs) = elim (Bool-cases (le a x)) [
    | inl e ↦ rw e (Perm.refl (a ∷ x ∷ xs))
    | inr e ↦ rw e (Perm.trans (Perm.cons x (insert_sorted-perm a xs)) (Perm.swap a x xs))
  ]

  pub sort-perm : (xs : List A) → Perm (sort le xs) xs
  unfolding sort
  sort-perm [] = Perm.refl []
  sort-perm (x ∷ xs) = Perm.trans (insert_sorted-perm x (sort le xs)) (Perm.cons x (sort-perm xs))

  module _ {κ} (P : A → Type κ) where
    insert_sorted-All : (a : A) (xs : List A) → P a → All P xs → All P (insert_sorted le a xs)
    unfolding insert_sorted
    insert_sorted-All a [] h hs = (h, tt)
    insert_sorted-All a (x ∷ xs) h hs = elim (Bool-cases (le a x)) [
      | inl e ↦ rw e (h, hs)
      | inr e ↦ rw e (hs.0, insert_sorted-All a xs h hs.1)
    ]

    pub sort-All : (xs : List A) → All P xs → All P (sort le xs)
    unfolding sort
    sort-All [] h = tt
    sort-All (x ∷ xs) h = insert_sorted-All x (sort le xs) h.0 (sort-All xs h.1)

  -- The comparator has to be an order only on the elements that the list can hold.
  module _ {κ} (P : A → Type κ) (total : (a b : A) → P a → P b → le a b ≡ false → le b a ≡ true)
      (trans : (a b c : A) → P a → P b → P c → le a b ≡ true → le b c ≡ true → le a c ≡ true) where
    below-All :
        (a x : A) (xs : List A)
        → P a
        → P x
        → All P xs
        → le a x ≡ true
        → All (λ y. le x y ≡ true) xs
        → All (λ y. le a y ≡ true) xs
    below-All a x [] pa px ps h hs = tt
    below-All a x (y ∷ ys) pa px ps h hs =
        (trans a x y pa px ps.0 h hs.0, below-All a x ys pa px ps.1 h hs.1)

    insert_sorted-IsSorted :
        (a : A) (xs : List A)
        → P a
        → All P xs
        → IsSorted le xs
        → IsSorted le (insert_sorted le a xs)
    unfolding insert_sorted
    insert_sorted-IsSorted a [] pa ps h = (tt, tt)
    insert_sorted-IsSorted a (x ∷ xs) pa ps h = elim (Bool-cases (le a x)) [
      | inl e ↦ rw e ((e, below-All a x xs pa ps.0 ps.1 e h.0), h)
      | inr e ↦ rw e (
        insert_sorted-All (λ y. le x y ≡ true) a xs (total a x pa ps.0 e) h.0,
        insert_sorted-IsSorted a xs pa ps.1 h.1,
      )
    ]

    pub sort-IsSorted : (xs : List A) → All P xs → IsSorted le (sort le xs)
    unfolding sort
    sort-IsSorted [] ps = tt
    sort-IsSorted (x ∷ xs) ps =
        insert_sorted-IsSorted x (sort le xs) ps.0 (sort-All P xs ps.1) (sort-IsSorted xs ps.1)
