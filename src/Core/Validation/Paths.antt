-- ===== src/Core/Validation/Paths.antt =====
-- `validate_skill_path` against a description without components: the parts between separators.
use agentenv_skills_hub.Common.{
  ◌&&◌, not, sym, ◌∙◌, ℕ, All, Bool, false, ◌≡◌, ◌≢◌, refl, List, [], ◌∷◌, ◌++◌, ok, err, any,
  arith, if◌then◌else◌, ◌||◌, is_empty,
}
use mathlib.Core.List.{append-nil, append_assoc}
use agentenv_skills_hub.Common.Text.{extend, Text, text, text_eq, split}
use agentenv_skills_hub.Common.Text.Laws.{text_eq_iff}
use agentenv_skills_hub.Common.Text.Splits.{split-Lacks, Lacks, tail_path}
use agentenv_skills_hub.Core.Error.{HubResult, unsafe_skill_path}
use agentenv_skills_hub.Core.FilePath.{
  Component, components, leading, part_components, parts_components, push, ends_with_slash,
  is_absolute,
}
use agentenv_skills_hub.Core.Validation.{validate_skill_path, push_components, is_rejected_text}

-- The parts that name a file or a folder.
unfoldable pub normal_parts : List Text → List Text
normal_parts [] = []
normal_parts (part ∷ parts) =
    if text_eq part (text "") || text_eq part (text ".")
    then normal_parts parts
    else part ∷ normal_parts parts

abbrev pub join : List Text → Text
join [] = []
join (part ∷ parts) = part ++ tail_path b'/' parts

abbrev pub climbs : List Text → Bool
climbs parts = any (text_eq (text "..")) parts

-- The paths that are accepted, and what becomes of them.
unfoldable pub checked_path : Text → HubResult Text
checked_path value =
    if is_rejected_text value
      || is_absolute value
      || climbs (split b'/' value)
      || is_empty (normal_parts (split b'/' value))
    then err (unsafe_skill_path value)
    else ok (join (normal_parts (split b'/' value)))

push_all : Text → List Text → Text
push_all acc [] = acc
push_all acc (part ∷ parts) = push_all (push acc part) parts

push_components_parts :
    (value acc : Text) (parts : List Text)
    → push_components value acc (parts_components parts) ≡ (
        if climbs parts
        then err (unsafe_skill_path value)
        else ok (push_all acc (normal_parts parts)))
unfolding push_components parts_components part_components any push_all normal_parts
push_components_parts value acc [] = refl
push_components_parts value acc (part ∷ parts) = ground (
  arith,
  push_components_parts value acc parts,
  push_components_parts value (push acc part) parts,
  text_eq_iff part (text ""),
  text_eq_iff part (text "."),
  text_eq_iff part (text ".."),
  text_eq_iff (text "..") part,
)

-- A text that is not empty and does not end in a separator.
abbrev Extends : Text → Type 0
Extends s = (s ≢ []) × (ends_with_slash s ≡ false)

abbrev IsName : Text → Type 0
IsName part = (part ≢ []) × Lacks b'/' part

ends-append : (s : Text) (c : ℕ) (t : Text) → ends_with_slash (s ++ c ∷ t) ≡ ends_with_slash (c ∷ t)
ends-append [] c t = refl
ends-append (a ∷ []) c t = refl
ends-append (a ∷ b ∷ s) c t = ends-append (b ∷ s) c t

ends-Lacks : (s : Text) → Lacks b'/' s → ends_with_slash s ≡ false
ends-Lacks [] h = refl
ends-Lacks (c ∷ []) h = ground (arith, h.0)
ends-Lacks (c ∷ d ∷ s) h = ends-Lacks (d ∷ s) h.1

absolute-Lacks : (s : Text) → Lacks b'/' s → is_absolute s ≡ false
absolute-Lacks [] h = refl
absolute-Lacks (c ∷ s) h = ground (arith, h.0)

push_name : (acc part : Text) → Extends acc → IsName part → push acc part ≡ acc ++ b'/' ∷ part
unfolding push
push_name acc part h k =
    ground (arith, absolute-Lacks part k.1, text_eq_iff acc (text ""), h.0, h.1)

Extends-name : (acc part : Text) → IsName part → Extends (acc ++ b'/' ∷ part)
Extends-name acc [] k = absurd (k.0 refl)
Extends-name [] (c ∷ part) k = (λ e. cc, ends-Lacks (c ∷ part) k.1)
Extends-name (a ∷ acc) (c ∷ part) k =
    (λ e. cc, ends-append (a ∷ acc) b'/' (c ∷ part) ∙ ends-Lacks (c ∷ part) k.1)

push_all-Extends :
    (acc : Text) (parts : List Text)
    → Extends acc
    → All IsName parts
    → push_all acc parts ≡ acc ++ tail_path b'/' parts
unfolding push_all
push_all-Extends acc [] h hs = sym (append-nil acc)
push_all-Extends acc (part ∷ parts) h hs = rw (push_name acc part h hs.0) (
    push_all-Extends (acc ++ b'/' ∷ part) parts (Extends-name acc part hs.0) hs.1
    ∙ append_assoc acc (b'/' ∷ part) (tail_path b'/' parts))

push_first : (part : Text) → IsName part → push [] part ≡ part
unfolding push text_eq
push_first part k = rw (absolute-Lacks part k.1) refl

push_all-join : (parts : List Text) → All IsName parts → push_all [] parts ≡ join parts
unfolding push_all
push_all-join [] hs = refl
push_all-join (part ∷ parts) hs =
    rw (push_first part hs.0) (push_all-Extends part parts (hs.0.0, ends-Lacks part hs.0.1) hs.1)

normal_parts-IsName : (parts : List Text) → All (Lacks b'/') parts → All IsName (normal_parts parts)
unfolding normal_parts
normal_parts-IsName [] h = tt
normal_parts-IsName (part ∷ parts) h =
    ground (arith, normal_parts-IsName parts h.1, text_eq_iff part (text ""), h.0)

push_components-leading :
    (value acc : Text) (c : ℕ) (s : Text) (parts : List Text) (rest : List Component)
    → push_components value acc (leading (c ∷ s) parts ++ rest) ≡ (
        if is_absolute (c ∷ s) && not (is_empty parts)
        then err (unsafe_skill_path value)
        else push_components value acc rest)
unfolding push_components leading
push_components-leading value acc c s [] rest = ground arith
push_components-leading value acc c s (part ∷ parts) rest = ground arith

extend-ne-nil : (c : ℕ) (parts : List Text) → is_empty (extend c parts) ≡ false
extend-ne-nil c [] = refl
extend-ne-nil c (part ∷ parts) = refl

split-ne-nil : (d : ℕ) (s : Text) → is_empty (split d s) ≡ false
unfolding split
split-ne-nil d [] = refl
split-ne-nil d (c ∷ s) = ground (arith, extend-ne-nil c (split d s))

join-is_empty : (parts : List Text) → All IsName parts → is_empty (join parts) ≡ is_empty parts
join-is_empty [] h = refl
join-is_empty ([] ∷ parts) h = absurd (h.0.0 refl)
join-is_empty ((c ∷ part) ∷ parts) h = refl

-- Validation of a skill path accepts exactly the texts that are not empty, hold no backslash, do not
-- begin with a drive letter or a separator, have no part `..` and some part other than `.`; it
-- returns the parts other than the empty ones and `.`, joined by separators, and refuses any other
-- text with its own value.
pub validate_skill_path-eq-checked_path :
    (value : Text) → validate_skill_path value ≡ checked_path value
unfolding validate_skill_path checked_path components
validate_skill_path-eq-checked_path [] = refl
validate_skill_path-eq-checked_path (c ∷ s) =
    let parts = split b'/' (c ∷ s) in
    let names = normal_parts-IsName parts (split-Lacks b'/' (c ∷ s)) in
    ground (
      arith,
      push_components-leading (c ∷ s) [] c s parts (parts_components parts),
      split-ne-nil b'/' (c ∷ s),
      push_components_parts (c ∷ s) [] parts,
      push_all-join (normal_parts parts) names,
      join-is_empty (normal_parts parts) names,
    )
