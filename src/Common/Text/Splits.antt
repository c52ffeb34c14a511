-- ===== src/Common/Text/Splits.antt =====
-- Splitting at a separator, and joining again.
use Prim.Native.Nat.{ℕ}
use mathlib.Core.Path.{◌≡◌, refl, ap, ◌∙◌}
use mathlib.Core.Logic.{◌≢◌, ◌↔◌}
use mathlib.Core.Bool.{false}
use mathlib.Core.List.{List, [], ◌∷◌, ◌++◌, append-nil}
use native.Mathlib.Omega.{arith}
use agentenv_skills_hub.Common.Lists.{All}
use agentenv_skills_hub.Common.Text.{Text, split, extend, contains_char}

abbrev pub Lacks : ℕ → Text → Type 0
Lacks d s = All (λ c. c ≢ d) s

pub Lacks-iff : (d : ℕ) (s : Text) → (contains_char d s ≡ false) ↔ Lacks d s
unfolding contains_char
Lacks-iff d [] = (λ _. tt, λ _. refl)
Lacks-iff d (c ∷ s) = (
  λ h. (ground arith, (Lacks-iff d s).0 (ground arith)),
  λ h. ground (arith, (Lacks-iff d s).1 h.1, h.0),
)

extend-Lacks :
    (d c : ℕ) (parts : List Text) → c ≢ d → All (Lacks d) parts → All (Lacks d) (extend c parts)
extend-Lacks d c [] h hs = ((h, tt), tt)
extend-Lacks d c (part ∷ parts) h hs = ((h, hs.0), hs.1)

-- No part holds the separator.
pub split-Lacks : (d : ℕ) (s : Text) → All (Lacks d) (split d s)
unfolding split
split-Lacks d [] = (tt, tt)
split-Lacks d (c ∷ s) = ground (arith, split-Lacks d s, extend-Lacks d c (split d s))

module _ (P : ℕ → Type 0) where
  extend-All : (c : ℕ) (parts : List Text) → P c → All (All P) parts → All (All P) (extend c parts)
  extend-All c [] h hs = ((h, tt), tt)
  extend-All c (part ∷ parts) h hs = ((h, hs.0), hs.1)

  -- What holds of all characters of a text holds in its parts.
  pub split-All : (d : ℕ) (s : Text) → All P s → All (All P) (split d s)
  unfolding split
  split-All d [] h = (tt, tt)
  split-All d (c ∷ s) h = ground (arith, split-All d s h.1, extend-All c (split d s) h.0)

-- Parts, each behind a separator.
abbrev pub tail_path : ℕ → List Text → Text
tail_path d [] = []
tail_path d (part ∷ parts) = d ∷ (part ++ tail_path d parts)

pub split_single : (d : ℕ) (part : Text) → Lacks d part → split d part ≡ part ∷ []
unfolding split
split_single d [] h = refl
split_single d (c ∷ s) h = ground (arith, split_single d s h.1, h.0)

pub split-append :
    (d : ℕ) (part rest : Text) → Lacks d part → split d (part ++ d ∷ rest) ≡ part ∷ split d rest
unfolding split
split-append d [] rest h = ground arith
split-append d (c ∷ s) rest h = ground (arith, split-append d s rest h.1, h.0)

pub split-joined :
    (d : ℕ) (part : Text) (parts : List Text)
    → Lacks d part
    → All (Lacks d) parts
    → split d (part ++ tail_path d parts) ≡ part ∷ parts
split-joined d part [] h hs = rw append-nil (split_single d part h)
split-joined d part (next ∷ rest) h hs =
    split-append d part (next ++ tail_path d rest) h
    ∙ ap (λ l. part ∷ l) (split-joined d next rest hs.0 hs.1)
