-- ===== src/Common/Apart.antt =====
-- Lists whose elements do not clash.
use mathlib.Core.List.{Mem, mem-cons, not-mem-nil, mem-cons_of_mem}
use mathlib.Core.Logic.Or
use agentenv_skills_hub.Common.{
  sym, ap, [], ◌∷◌, some, none, inl, inr, true, false, refl, arith, Bool-cases, ◌∙◌, map, All, ◌≡◌,
  Bool, List, any, find,
}

-- No element clashes with a later one.
abbrev pub Apart {ℓ} : {A : Type ℓ} → (A → A → Bool) → List A → Type ℓ
Apart clash [] = Unit
Apart clash (x ∷ xs) = All (λ y. clash x y ≡ false) xs × Apart clash xs

module _ {ℓ} {A : Type ℓ} where
  pub All-of_any : (p : A → Bool) (xs : List A) → any p xs ≡ false → All (λ y. p y ≡ false) xs
  unfolding any
  All-of_any p [] h = tt
  All-of_any p (x ∷ xs) h = (ground arith, All-of_any p xs (ground arith))

  pub All-of_find : (p : A → Bool) (xs : List A) → find p xs ≡ none → All (λ y. p y ≡ false) xs
  unfolding find
  All-of_find p [] h = tt
  All-of_find p (x ∷ xs) h = elim (Bool-cases (p x)) [
    | inl e ↦ absurd (ground (arith, e))
    | inr e ↦ (e, All-of_find p xs (ground (arith, e)))
  ]

  pub All_at_find {κ} :
      (P : A → Type κ) (p : A → Bool) (xs : List A) (a : A) → All P xs → find p xs ≡ some a → P a
  unfolding find
  All_at_find P p [] a h e = absurd (cc)
  All_at_find P p (x ∷ xs) a h e = elim (Bool-cases (p x)) [
    | inl t ↦ rw (some_inj x a (rw t at e)) at h.0
    | inr f ↦ All_at_find P p xs a h.1 (rw f at e)
  ]
    where
      some_inj : (x a : A) → some x ≡ some a → x ≡ a
      some_inj x a h = cc

  pub Apart-map :
      (clash : A → A → Bool) (g : A → A) (xs : List A)
      → ((x y : A) → clash (g x) (g y) ≡ clash x y)
      → Apart clash xs
      → Apart clash (map g xs)
  Apart-map clash g [] same h = tt
  Apart-map clash g (x ∷ xs) same h = (All-clash x xs h.0, Apart-map clash g xs same h.1)
    where
      All-clash :
          (x : A) (xs : List A)
          → All (λ y. clash x y ≡ false) xs
          → All (λ y. clash (g x) y ≡ false) (map g xs)
      All-clash x [] h = tt
      All-clash x (y ∷ ys) h = (same x y ∙ h.0, All-clash x ys h.1)

  pub any-map :
      (p q : A → Bool) (g : A → A) (xs : List A)
      → ((x : A) → q (g x) ≡ p x)
      → any q (map g xs) ≡ any p xs
  unfolding any
  any-map p q g [] same = refl
  any-map p q g (x ∷ xs) same = ground (arith, same x, any-map p q g xs same)

  pub All-map_same {κ} :
      (P Q : A → Type κ) (g : A → A) (xs : List A)
      → ((x : A) → P x → Q (g x))
      → All P xs
      → All Q (map g xs)
  All-map_same P Q g [] keep h = tt
  All-map_same P Q g (x ∷ xs) keep h = (keep x h.0, All-map_same P Q g xs keep h.1)

  pub All-keep {κ} : (P Q : A → Type κ) (xs : List A) → ((x : A) → P x → Q x) → All P xs → All Q xs
  All-keep P Q [] keep h = tt
  All-keep P Q (x ∷ xs) keep h = (keep x h.0, All-keep P Q xs keep h.1)

-- In a list without clashes, an element that is found is the first that clashes with it.
pub find_own {ℓ} :
    {A : Type ℓ} (clash : A → A → Bool) (p : A → Bool) (xs : List A) (s : A)
    → ((x : A) → clash x x ≡ true)
    → ((x y : A) → clash x y ≡ false → clash y x ≡ false)
    → Apart clash xs
    → find p xs ≡ some s
    → find (clash s) xs ≡ some s
unfolding find
find_own clash p [] s itself flip h e = cc
find_own {A} clash p (x ∷ xs) s itself flip h e = elim (Bool-cases (p x)) [
  | inl t ↦ ground (arith, t, itself x)
  | inr f ↦
      let e' = rw f at e in
      let other = flip x s (All_at_find (λ (y : A). clash x y ≡ false) p xs s h.0 e') in
      rw other (find_own clash p xs s itself flip h.1 e')
]

module _ {ℓ} {A : Type ℓ} where
  pub All-at_mem :
      (p : A → Bool) (xs : List A) (a : A) → All (λ y. p y ≡ false) xs → Mem a xs → p a ≡ false
  All-at_mem p [] a h m = absurd (not-mem-nil m)
  All-at_mem p (x ∷ xs) a h m =
      Or.elim (hlevel) (mem-cons.0 m) (λ e. rw e h.0) (λ n. All-at_mem p xs a h.1 n)

  pub find-mem : (p : A → Bool) (xs : List A) (a : A) → find p xs ≡ some a → Mem a xs
  unfolding find
  find-mem p [] a h = absurd (cc)
  find-mem p (x ∷ xs) a h = elim (Bool-cases (p x)) [
    | inl t ↦ mem-cons.1 (Or.inl (some_inj a x (sym (rw t at h))))
    | inr f ↦ mem-cons_of_mem x (find-mem p xs a (rw f at h))
  ]
    where
      some_inj : (a x : A) → some a ≡ some x → a ≡ x
      some_inj a x h = cc

-- Elements that clash are one, in what a function into a set sees of them.
pub Apart-unique {ℓ κ} :
    {A : Type ℓ} {B : Type κ} (set : IsSet B) (f : A → B) (clash : A → A → Bool)
    → ((x y : A) → clash x y ≡ true → clash y x ≡ true)
    → (xs : List A) (a b : A) → Apart clash xs
    → Mem a xs
    → Mem b xs
    → clash a b ≡ true
    → f a ≡ f b
Apart-unique set f clash flip [] a b h m n c = absurd (not-mem-nil m)
Apart-unique {A} set f clash flip (x ∷ xs) a b h m n c =
    Or.elim (set (f a) (f b)) (mem-cons.0 m)
      (λ i.
        Or.elim (set (f a) (f b)) (mem-cons.0 n) (λ j. ap f (i ∙ sym j))
          (λ n'. absurd (apart b (All-at_mem (clash x) xs b h.0 n') (rw i at c))))
      (λ m'.
        Or.elim (set (f a) (f b)) (mem-cons.0 n)
          (λ j. absurd (apart a (All-at_mem (clash x) xs a h.0 m') (flip a x (rw j at c))))
          (λ n'. Apart-unique set f clash flip xs a b h.1 m' n' c))
  where
    apart : (y : A) → clash x y ≡ false → clash x y ≡ true → ⊥
    apart y p q = ground arith
