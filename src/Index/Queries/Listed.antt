-- ===== src/Index/Queries/Listed.antt =====
-- The rows that the public queries select, and writes that leave them.
use agentenv_skills_hub.Common.Text.{text, text_eq}
use agentenv_skills_hub.Core.Model.{Uuid}
use agentenv_skills_hub.Index.Tables.{SkillVersionRow, Db, SkillRow}
use agentenv_skills_hub.Index.Queries.{join, is_listed, with_skill, Row}
use agentenv_skills_hub.Common.{
  map, sym, ◌∙◌, arith, ap, false, true, Bool-cases, ◌≡◌, ◌==◌, All, ◌++◌, List, Bool, keep, [],
  ◌∷◌, refl, inl, inr,
}

unfoldable pub listed : List SkillRow → List SkillVersionRow → List Row
unfolding keep join is_listed
listed skills versions = keep is_listed (join skills versions)

-- The versions that are not yanked, of the public skills.
abbrev pub listed_rows : Db → List Row
listed_rows db = listed db.skills db.skill_versions

abbrev pub is_public : SkillRow → Bool
is_public s = text_eq s.visibility (text "public")

keep-append : (p : Row → Bool) (xs ys : List Row) → keep p (xs ++ ys) ≡ keep p xs ++ keep p ys
unfolding keep
keep-append p [] ys = refl
keep-append p (x ∷ xs) ys = elim (Bool-cases (p x)) [
  | inl e ↦ rw e (ap (λ zs. x ∷ zs) (keep-append p xs ys))
  | inr e ↦ rw e (keep-append p xs ys)
]

-- The rows of one skill.
unfoldable pub own : SkillRow → List SkillVersionRow → List Row
unfolding keep is_listed
own s versions = keep is_listed (with_skill s (keep (λ sv. sv.skill_id == s.id) versions))

pub listed-cons :
    (s : SkillRow) (skills : List SkillRow) (versions : List SkillVersionRow)
    → listed (s ∷ skills) versions ≡ own s versions ++ listed skills versions
unfolding listed own
listed-cons s skills versions =
    keep-append is_listed (with_skill s (keep (λ sv. sv.skill_id == s.id) versions))
      (join skills versions)

own_hidden :
    (s : SkillRow) (versions : List SkillVersionRow) → is_public s ≡ false → own s versions ≡ []
unfolding own
own_hidden s versions h = none_listed (keep (λ sv. sv.skill_id == s.id) versions)
  where
    none_listed : (svs : List SkillVersionRow) → keep is_listed (with_skill s svs) ≡ []
    none_listed [] = refl
    none_listed (sv ∷ svs) = rw h (none_listed svs)

pub listed_hidden :
    (s : SkillRow) (skills : List SkillRow) (versions : List SkillVersionRow)
    → is_public s ≡ false
    → listed (s ∷ skills) versions ≡ listed skills versions
listed_hidden s skills versions h =
    listed-cons s skills versions
    ∙ ap (λ rows. rows ++ listed skills versions) (own_hidden s versions h)

-- The row of a version of another skill is not one of this skill's.
own_other :
    (s : SkillRow) (v : SkillVersionRow) (versions : List SkillVersionRow)
    → (s.id == v.skill_id) ≡ false
    → own s (v ∷ versions) ≡ own s versions
unfolding own keep
own_other s v versions h = rw (turned h) refl
  where
    turned : (s.id == v.skill_id) ≡ false → (v.skill_id == s.id) ≡ false
    turned e = ground arith

-- No row of this key is that of a public skill.
abbrev pub HidesId : Uuid → List SkillRow → Type 0
HidesId k skills = All (λ s. (s.id == k) ≡ true → is_public s ≡ false) skills

-- A version of a hidden skill, and an update of that skill's row alone, are not listed.
module _ (update : SkillRow → SkillRow) (v : SkillVersionRow)
    (alone : (s : SkillRow) → (s.id == v.skill_id) ≡ false → update s ≡ s)
    (keeps : (s : SkillRow) → is_public (update s) ≡ is_public s)
    (versions : List SkillVersionRow) where
  pub listed_written :
      (skills : List SkillRow)
      → HidesId v.skill_id skills
      → listed (map update skills) (v ∷ versions) ≡ listed skills versions
  unfolding listed
  listed_written [] h = refl
  listed_written (s ∷ skills) h = elim (Bool-cases (s.id == v.skill_id)) [
    | inl e ↦
        listed_hidden (update s) (map update skills) (v ∷ versions) (keeps s ∙ h.0 e)
        ∙ listed_written skills h.1
        ∙ sym (listed_hidden s skills versions (h.0 e))
    | inr e ↦
        ap (λ t. listed (t ∷ map update skills) (v ∷ versions)) (alone s e)
        ∙ listed-cons s (map update skills) (v ∷ versions)
        ∙ rw (own_other s v versions e, listed_written skills h.1)
            (sym (listed-cons s skills versions))
  ]
