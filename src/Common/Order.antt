-- ===== src/Common/Order.antt =====
-- Rust's `Ordering`: comparison of texts, `then_with`, and what a comparator must satisfy for a
-- sort to be well defined.
pub mod Laws
use Prim.Native.Nat.{ℕ, compare, Ordering}
use mathlib.Core.Path.{◌≡◌}
use mathlib.Core.Bool.{Bool, true, false}
use mathlib.Core.List.{List, [], ◌∷◌}
use agentenv_skills_hub.Common.Text.{Text}

-- `is_le`
abbrev pub is_le : Ordering → Bool
is_le Ordering.gt = false
is_le _ = true

abbrev pub then_with : Ordering → Ordering → Ordering
then_with Ordering.eq o = o
then_with Ordering.lt o = Ordering.lt
then_with Ordering.gt o = Ordering.gt

abbrev pub reverse_order : Ordering → Ordering
reverse_order Ordering.lt = Ordering.gt
reverse_order Ordering.eq = Ordering.eq
reverse_order Ordering.gt = Ordering.lt

-- `Ord for str`: the bytes in lexicographic order, which in UTF-8 is that of the scalar values.
unfoldable pub text_cmp : Text → Text → Ordering
text_cmp [] [] = Ordering.eq
text_cmp [] (d ∷ t) = Ordering.lt
text_cmp (c ∷ s) [] = Ordering.gt
text_cmp (c ∷ s) (d ∷ t) = then_with (compare c d) (text_cmp s t)

-- `f` is a total preorder.
pub record IsOrder {ℓ} {A : Type ℓ} (f : A → A → Ordering) : Type ℓ where
  pub flip : (a b : A) → f b a ≡ reverse_order (f a b)
  pub trans : (a b c : A) → is_le (f a b) ≡ true → is_le (f b c) ≡ true → is_le (f a c) ≡ true
