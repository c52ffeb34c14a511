-- ===== src/Core/Validation/Safety.antt =====
-- What an accepted skill path can name.
use mathlib.Core.List.{append-nil}
use agentenv_skills_hub.Common.Text.Laws.{encode_ascii}
use agentenv_skills_hub.Common.Text.{bytes, text_eq, is_ascii_alphabetic, Text, text, split}
use agentenv_skills_hub.Common.{
  ◌<◌, ◌≡◌, ◌≢◌, [], ◌∷◌, List, All, ℕ, true, false, ok, arith, any, is_empty, ap, sym, ◌∙◌, refl,
}
use agentenv_skills_hub.Common.Text.Splits.{
  split_single, split-append, Lacks, split-joined, split-Lacks, split-All, Lacks-iff,
}
use agentenv_skills_hub.Common.Text.Laws.{text_eq_iff}
use agentenv_skills_hub.Core.FilePath.{is_absolute}
use agentenv_skills_hub.Core.Validation.Paths.{
  climbs, normal_parts, checked_path, join, validate_skill_path-eq-checked_path,
}
use agentenv_skills_hub.Core.Validation.{
  is_rejected_text, has_windows_drive_prefix, validate_skill_path,
}

abbrev pub IsSafePart : Text → Type 0
IsSafePart part =
    (part ≢ []) × (part ≢ text ".") × (part ≢ text "..") × Lacks b'/' part × Lacks b'\\' part

-- What `checked_path` has tested where it accepts.
record Checked (value path : Text) : Type 0 where
  text_passes : is_rejected_text value ≡ false
  relative : is_absolute value ≡ false
  stays : climbs (split b'/' value) ≡ false
  named : is_empty (normal_parts (split b'/' value)) ≡ false
  joined : join (normal_parts (split b'/' value)) ≡ path

Checked-of_ok : (value path : Text) → validate_skill_path value ≡ ok path → Checked value path
unfolding checked_path
Checked-of_ok value path h =
    let e : checked_path value ≡ ok path = rw (validate_skill_path-eq-checked_path value) at h in
    record {
      text_passes = ground arith;
      relative = ground arith;
      stays = ground arith;
      named = ground arith;
      joined = ground arith;
    }

no_backslash : (value : Text) → is_rejected_text value ≡ false → Lacks b'\\' value
unfolding is_rejected_text
no_backslash value h = (Lacks-iff b'\\' value).0 (ground arith)

safe_parts :
    (parts : List Text)
    → climbs parts ≡ false
    → All (Lacks b'/') parts
    → All (Lacks b'\\') parts
    → All IsSafePart (normal_parts parts)
unfolding normal_parts any
safe_parts [] h s b = tt
safe_parts (part ∷ parts) h s b = ground (
  arith,
  safe_parts parts (ground arith) s.1 b.1,
  text_eq_iff part (text ""),
  text_eq_iff part (text "."),
  text_eq_iff part (text ".."),
  text_eq_iff (text "..") part,
  s.0,
  b.0,
)

Lacks-All : (parts : List Text) → All IsSafePart parts → All (Lacks b'/') parts
Lacks-All [] h = tt
Lacks-All (part ∷ parts) h = (h.0.3, Lacks-All parts h.1)

split-join :
    (parts : List Text)
    → is_empty parts ≡ false
    → All IsSafePart parts
    → split b'/' (join parts) ≡ parts
split-join [] h s = cc
split-join (part ∷ parts) h s = split-joined b'/' part parts s.0.3 (Lacks-All parts s.1)

-- An accepted path has the parts of the given text, less empty ones and `.`; each is a plain name:
-- not empty, neither `.` nor `..`, and free of both kinds of separator.
pub validate_skill_path-IsSafePart :
    (value path : Text)
    → validate_skill_path value ≡ ok path
    → (split b'/' path ≡ normal_parts (split b'/' value)) × All IsSafePart (split b'/' path)
validate_skill_path-IsSafePart value path h =
    let c = Checked-of_ok value path h in
    let parts = split b'/' value in
    let safe =
      safe_parts parts c.stays (split-Lacks b'/' value)
        (split-All (λ k. k ≢ b'\\') b'/' value (no_backslash value c.text_passes)) in
    let e = ap (split b'/') (sym c.joined) ∙ split-join (normal_parts parts) c.named safe in
    (e, rw e safe)

alphabetic_ascii :
    (d : ℕ) → is_ascii_alphabetic d ≡ true → (d < 128) × (d ≢ b'/') × (d ≢ b'\\') × (d ≢ b'.')
unfolding is_ascii_alphabetic
alphabetic_ascii d h = (ground arith, ground arith, ground arith, ground arith)

drive_prefix_lem :
    (d : ℕ) (name : Text)
    → is_ascii_alphabetic d ≡ true
    → has_windows_drive_prefix (d ∷ b':' ∷ name) ≡ true
unfolding has_windows_drive_prefix bytes
drive_prefix_lem d name h = rw (encode_ascii d (alphabetic_ascii d h).0) (rw h refl)

module _ (d : ℕ) (name : Text) (letter : is_ascii_alphabetic d ≡ true) (s : Lacks b'/' name)
    (b : Lacks b'\\' name) where
  drive_parts : split b'/' (b'.' ∷ b'/' ∷ d ∷ b':' ∷ name) ≡ text "." ∷ (d ∷ b':' ∷ name) ∷ []
  drive_parts =
      split-append b'/' (text ".") (d ∷ b':' ∷ name) ((λ e. omega arith), tt)
      ∙ ap (λ l. text "." ∷ l)
          (split_single b'/' (d ∷ b':' ∷ name)
            ((alphabetic_ascii d letter).1, ((λ e. omega arith), s)))

  drive_not_rejected : is_rejected_text (b'.' ∷ b'/' ∷ d ∷ b':' ∷ name) ≡ false
  unfolding is_rejected_text has_windows_drive_prefix bytes is_ascii_alphabetic
  drive_not_rejected =
      rw
        ((Lacks-iff b'\\' (b'.' ∷ b'/' ∷ d ∷ b':' ∷ name)).1 (
          (λ e. omega arith),
          ((λ e. omega arith), ((alphabetic_ascii d letter).2, ((λ e. omega arith), b))),
        ))
        refl

  drive_checked : checked_path (b'.' ∷ b'/' ∷ d ∷ b':' ∷ name) ≡ ok (d ∷ b':' ∷ name)
  unfolding checked_path normal_parts any text_eq
  drive_checked =
      rw (drive_not_rejected, drive_parts)
        (ground (arith, append-nil name, (alphabetic_ascii d letter).3))

-- A drive letter behind `./` passes the test for drive letters, and the returned path begins with
-- it. The rest is a name without separators.
pub drive_prefix_survives :
    (d : ℕ) (name : Text)
    → is_ascii_alphabetic d ≡ true
    → Lacks b'/' name
    → Lacks b'\\' name
    → (validate_skill_path (b'.' ∷ b'/' ∷ d ∷ b':' ∷ name) ≡ ok (d ∷ b':' ∷ name))
      × (has_windows_drive_prefix (d ∷ b':' ∷ name) ≡ true)
drive_prefix_survives d name h s b = (
  validate_skill_path-eq-checked_path (b'.' ∷ b'/' ∷ d ∷ b':' ∷ name) ∙ drive_checked d name h s b,
  drive_prefix_lem d name h,
)
