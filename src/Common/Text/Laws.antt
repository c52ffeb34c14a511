-- ===== src/Common/Text/Laws.antt =====
-- Laws of the operations on text.
use agentenv_skills_hub.Common.Tests.{Bool-cases}
use agentenv_skills_hub.Common.Lists.{All, all, all-append}
use agentenv_skills_hub.Common.Text.{Text, encode, bytes, text_eq, strip_prefix}
use Prim.Native.Nat.{ℕ, ◌+◌, ◌/◌, ◌≤◌, ◌<◌}
use mathlib.Core.Path.{◌≡◌, refl, ap}
use mathlib.Core.Logic.{◌↔◌, inl, inr}
use mathlib.Core.Bool.{Bool, true, false}
use mathlib.Core.Option.{some}
use mathlib.Core.List.{[], ◌∷◌, ◌++◌}
use native.Mathlib.Omega.{arith}

pub text_eq_refl : (s : Text) → text_eq s s ≡ true
unfolding text_eq
text_eq_refl [] = refl
text_eq_refl (c ∷ s) = ground (arith, text_eq_refl s)

pub eq_of_text_eq : (s t : Text) → text_eq s t ≡ true → s ≡ t
unfolding text_eq
eq_of_text_eq [] [] h = refl
eq_of_text_eq [] (d ∷ t) h = cc
eq_of_text_eq (c ∷ s) [] h = cc
eq_of_text_eq (c ∷ s) (d ∷ t) h = ground (arith, eq_of_text_eq s t)

pub text_eq_iff : (s t : Text) → (text_eq s t ≡ true) ↔ (s ≡ t)
text_eq_iff s t = (eq_of_text_eq s t, λ p. rw p (text_eq_refl t))

-- For `grind`: texts that are compared are equal or not.
pub ruleset text_rules = (arith, text_eq_refl, text_eq_iff)

pub encode_ascii : (c : ℕ) → c < 128 → encode c ≡ c ∷ []
unfolding encode
encode_ascii c h = ground arith

-- An ASCII text is its own encoding.
pub bytes_ascii : (s : Text) → All (λ c. c < 128) s → bytes s ≡ s
unfolding bytes
bytes_ascii [] h = refl
bytes_ascii (c ∷ s) h = rw (encode_ascii c h.0) (ap (λ l. c ∷ l) (bytes_ascii s h.1))

-- A test that only ASCII bytes pass, holds of all bytes of a text exactly if it holds of all its
-- scalar values.
module _ (p : ℕ → Bool) (ascii : (b : ℕ) → p b ≡ true → b < 128) where
  fails_above : (b : ℕ) → 128 ≤ b → p b ≡ false
  fails_above b h = elim (Bool-cases (p b)) [
    | inl e ↦ absurd (omega (arith, ascii b e))
    | inr e ↦ e
  ]

  all-encode : (c : ℕ) → all p (encode c) ≡ p c
  unfolding all encode
  all-encode c = ground (
    arith,
    fails_above c,
    fails_above (192 + c / 64),
    fails_above (224 + c / 4096),
    fails_above (240 + c / 262144),
  )

  pub all-bytes : (s : Text) → all p (bytes s) ≡ all p s
  unfolding all bytes
  all-bytes [] = refl
  all-bytes (c ∷ s) = rw (all-append, all-encode, all-bytes s) refl

pub strip_prefix-eq-some : (p s r : Text) → strip_prefix p s ≡ some r → s ≡ p ++ r
unfolding strip_prefix
strip_prefix-eq-some [] s r h = cc
strip_prefix-eq-some (c ∷ p) [] r h = cc
strip_prefix-eq-some (c ∷ p) (d ∷ s) r h = ground (arith, strip_prefix-eq-some p s r)

pub strip_prefix-append : (p r : Text) → strip_prefix p (p ++ r) ≡ some r
unfolding strip_prefix
strip_prefix-append [] r = refl
strip_prefix-append (c ∷ p) r = ground (arith, strip_prefix-append p r)
