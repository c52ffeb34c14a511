-- ===== src/Common/Order/Laws.antt =====
-- Comparators built from total preorders are total preorders.
use Prim.Native.Nat.{compare, Ordering}
use mathlib.Core.Path.{◌≡◌, refl}
use mathlib.Core.Bool.{true, false}
use mathlib.Core.List.{[], ◌∷◌}
use native.Mathlib.Omega.{arith}
use agentenv_skills_hub.Common.Text.{Text}
use agentenv_skills_hub.Common.Order.{is_le, then_with, reverse_order, text_cmp, IsOrder}

text_cmp-flip : (s t : Text) → text_cmp t s ≡ reverse_order (text_cmp s t)
unfolding text_cmp
text_cmp-flip [] [] = refl
text_cmp-flip [] (d ∷ t) = refl
text_cmp-flip (c ∷ s) [] = refl
text_cmp-flip (c ∷ s) (d ∷ t) = ground (arith, text_cmp-flip s t)

text_cmp_trans :
    (s t u : Text)
    → is_le (text_cmp s t) ≡ true
    → is_le (text_cmp t u) ≡ true
    → is_le (text_cmp s u) ≡ true
unfolding text_cmp
text_cmp_trans [] t [] h k = refl
text_cmp_trans [] t (e ∷ u) h k = refl
text_cmp_trans (c ∷ s) [] u h k = cc
text_cmp_trans (c ∷ s) (d ∷ t) [] h k = cc
text_cmp_trans (c ∷ s) (d ∷ t) (e ∷ u) h k = ground (arith, text_cmp_trans s t u)

pub text_cmp-IsOrder : IsOrder text_cmp
text_cmp-IsOrder = record { flip = text_cmp-flip; trans = text_cmp_trans }

pub eq_of_text_cmp : (s t : Text) → text_cmp s t ≡ Ordering.eq → s ≡ t
unfolding text_cmp
eq_of_text_cmp [] [] h = refl
eq_of_text_cmp [] (d ∷ t) h = cc
eq_of_text_cmp (c ∷ s) [] h = cc
eq_of_text_cmp (c ∷ s) (d ∷ t) h = ground (arith, eq_of_text_cmp s t)

pub compare-IsOrder : IsOrder compare
compare-IsOrder = record { flip = λ a b. ground arith; trans = λ a b c h k. ground arith }

module _ {ℓ} {A : Type ℓ} {f : A → A → Ordering} where
  pub is_le_total : IsOrder f → (a b : A) → is_le (f a b) ≡ false → is_le (f b a) ≡ true
  is_le_total o a b h = rw (o.flip a b) (ground arith)

  pub reversed-IsOrder : IsOrder f → IsOrder (λ a b. f b a)
  reversed-IsOrder o = record { flip = λ a b. o.flip b a; trans = λ a b c h k. o.trans c b a k h }

  pub pulled-IsOrder {κ} : {B : Type κ} (g : B → A) → IsOrder f → IsOrder (λ a b. f (g a) (g b))
  pulled-IsOrder g o = record {
    flip = λ a b. o.flip (g a) (g b);
    trans = λ a b c h k. o.trans (g a) (g b) (g c) h k;
  }

module _ {ℓ} {A : Type ℓ} {f g : A → A → Ordering} where
  pub then_with-IsOrder : IsOrder f → IsOrder g → IsOrder (λ a b. then_with (f a b) (g a b))
  then_with-IsOrder o p = record {
    flip = λ a b. ground (arith, o.flip a b, p.flip a b);
    trans = λ a b c h k. ground (
      arith,
      o.flip a b,
      o.flip b c,
      o.flip a c,
      o.trans a b c,
      o.trans b c a,
      o.trans c a b,
      p.trans a b c,
    );
  }
