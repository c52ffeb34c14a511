-- ===== src/Core/Validation/Names.antt =====
-- Which namespaces and skill names are accepted.
use agentenv_skills_hub.Common.{
  ℕ, ◌≤◌, ◌<◌, true, false, ◌≡◌, ◌≢◌, ◌↔◌, ◌⊎◌, inl, inr, refl, [], ◌∷◌, ok, err, All, arith,
  All-of_all, all_of_All,
}
use agentenv_skills_hub.Common.Text.{Text, text, split, starts_with}
use agentenv_skills_hub.Common.Text.Laws.{all-bytes}
use agentenv_skills_hub.Core.Error.{invalid_namespace, invalid_skill_name}
use agentenv_skills_hub.Core.Validation.{
  identifier_byte, skill_name_byte, validate_namespace, validate_skill_name,
}

-- Lower-case ASCII letters, digits, `-` and `_`.
abbrev pub IsIdentifierChar : ℕ → Type 0
IsIdentifierChar c = ((b'a' ≤ c) × (c ≤ b'z')) ⊎ ((b'0' ≤ c) × (c ≤ b'9')) ⊎ (c ≡ b'-') ⊎ (c ≡ b'_')

-- Skill names may hold dots too.
abbrev pub IsSkillChar : ℕ → Type 0
IsSkillChar c = IsIdentifierChar c ⊎ (c ≡ b'.')

identifier_ascii : (b : ℕ) → identifier_byte b ≡ true → b < 128
unfolding identifier_byte
identifier_ascii b h = ground arith

identifier_sound : (c : ℕ) → identifier_byte c ≡ true → IsIdentifierChar c
unfolding identifier_byte
identifier_sound c h = ground arith

identifier_complete : (c : ℕ) → IsIdentifierChar c → identifier_byte c ≡ true
unfolding identifier_byte
identifier_complete c h = ground arith

not_dot : (c : ℕ) → IsIdentifierChar c → c ≢ b'.'
not_dot c h = ground arith

skill_ascii : (b : ℕ) → skill_name_byte b ≡ true → b < 128
unfolding skill_name_byte
skill_ascii b h = ground arith

skill_sound : (c : ℕ) → skill_name_byte c ≡ true → IsSkillChar c
unfolding skill_name_byte
skill_sound c h = ground arith

skill_complete : (c : ℕ) → IsSkillChar c → skill_name_byte c ≡ true
unfolding skill_name_byte
skill_complete c h = ground arith

-- A namespace is accepted exactly if it is not empty and holds lower-case ASCII letters, digits,
-- `-` and `_` only; any other is refused with its own value.
pub validate_namespace_iff :
    (value : Text)
    → ((validate_namespace value ≡ ok tt) ↔ ((value ≢ []) × All IsIdentifierChar value))
      × ((validate_namespace value ≡ ok tt)
          ⊎ (validate_namespace value ≡ err (invalid_namespace value)))
unfolding validate_namespace starts_with
validate_namespace_iff [] = ((λ e. cc, λ h. absurd (h.0 refl)), inr refl)
validate_namespace_iff (c ∷ s) = (
  (
    λ e. (
      λ p. cc,
      All-of_all IsIdentifierChar identifier_byte identifier_sound (c ∷ s)
          (ground (arith, all-bytes identifier_byte identifier_ascii (c ∷ s))),
    ),
    λ h. ground (
      arith,
      all-bytes identifier_byte identifier_ascii (c ∷ s),
      all_of_All IsIdentifierChar identifier_byte identifier_complete (c ∷ s) h.1,
      not_dot c h.1.0,
    ),
  ),
  ground arith,
)

-- A skill name is accepted exactly if it is not empty, does not begin with a dot, and holds
-- lower-case ASCII letters, digits, `-`, `_` and dots only; any other is refused with its own value.
pub validate_skill_name_iff :
    (value : Text)
    → ((validate_skill_name value ≡ ok tt)
        ↔ ((value ≢ []) × (starts_with (text ".") value ≡ false) × All IsSkillChar value))
      × ((validate_skill_name value ≡ ok tt)
          ⊎ (validate_skill_name value ≡ err (invalid_skill_name value)))
unfolding validate_skill_name starts_with
validate_skill_name_iff [] = ((λ e. cc, λ h. absurd (h.0 refl)), inr refl)
validate_skill_name_iff (c ∷ s) = (
  (
    λ e. (
      λ p. cc,
      ground arith,
      All-of_all IsSkillChar skill_name_byte skill_sound (c ∷ s)
          (ground (arith, all-bytes skill_name_byte skill_ascii (c ∷ s))),
    ),
    λ h. ground (
      arith,
      all-bytes skill_name_byte skill_ascii (c ∷ s),
      all_of_All IsSkillChar skill_name_byte skill_complete (c ∷ s) h.2,
    ),
  ),
  ground arith,
)

IsIdentifierChar-IsSkillChar : (s : Text) → All IsIdentifierChar s → All IsSkillChar s
IsIdentifierChar-IsSkillChar [] h = tt
IsIdentifierChar-IsSkillChar (c ∷ s) h = (inl h.0, IsIdentifierChar-IsSkillChar s h.1)

split-IsSkillChar : (s : Text) → All IsSkillChar s → split b'/' s ≡ s ∷ []
unfolding split
split-IsSkillChar [] h = refl
split-IsSkillChar (c ∷ s) h = ground (arith, split-IsSkillChar s h.1, h.0)

-- An accepted namespace would be accepted as a skill name.
pub skill_name_of_namespace :
    (value : Text) → validate_namespace value ≡ ok tt → validate_skill_name value ≡ ok tt
unfolding starts_with
skill_name_of_namespace [] e = absurd (((validate_namespace_iff []).0.0 e).0 refl)
skill_name_of_namespace (c ∷ s) e =
    let (_, h) = (validate_namespace_iff (c ∷ s)).0.0 e in
    (validate_skill_name_iff (c ∷ s)).0.1
      ((λ p. cc), ground (arith, not_dot c h.0), IsIdentifierChar-IsSkillChar (c ∷ s) h)

-- An accepted skill name is one segment of a path: it holds no separator and is neither `.` nor
-- `..`.
pub names-IsSegment :
    (value : Text)
    → validate_skill_name value ≡ ok tt
    → (split b'/' value ≡ value ∷ []) × (value ≢ text ".") × (value ≢ text "..")
unfolding starts_with
names-IsSegment [] e = absurd (((validate_skill_name_iff []).0.0 e).0 refl)
names-IsSegment (c ∷ s) e =
    let (_, d, h) = (validate_skill_name_iff (c ∷ s)).0.0 e in
    (split-IsSkillChar (c ∷ s) h, (λ p. ground arith), (λ p. ground arith))
