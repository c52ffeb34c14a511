-- ===== src/Index/Queries/Once.antt =====
-- The rows that the public queries select, one for each version.
use agentenv_skills_hub.Common.Text.{text, text_eq}
use agentenv_skills_hub.Common.Apart.{Apart}
use agentenv_skills_hub.Core.Model.{OffsetDateTime}
use agentenv_skills_hub.Index.Postgres.WellFormed.{IsWellFormed}
use agentenv_skills_hub.Index.Queries.{is_listed, join, Row}
use agentenv_skills_hub.Index.Queries.Listed.{listed, own, listed-cons}
use agentenv_skills_hub.Index.Tables.{Db, SkillRow, SkillVersionRow}
use agentenv_skills_hub.Search.Lexical.{filter_map}
use mathlib.Core.List.{Perm, perm_middle}
use mathlib.Core.List.Perm
use agentenv_skills_hub.Common.{
  All, Bool-cases, List, Option, Option-cases, arith, false, find, if◌then◌else◌, inl, inr, keep,
  none, refl, some, true, [], ◌++◌, ◌==◌, ◌≡◌, ◌∷◌, ◌⊎◌,
}

abbrev unmarked : Option OffsetDateTime → Option Row → Option Row
unmarked none row = row
unmarked (some at) row = none

abbrev offered : Option SkillRow → SkillVersionRow → Option Row
offered none sv = none
offered (some s) sv =
    unmarked sv.yanked_at (if text_eq s.visibility (text "public") then some (s, sv) else none)

-- The row of a version, where its skill is there and public, and it has no yank mark.
abbrev pub public_row : List SkillRow → SkillVersionRow → Option Row
public_row skills sv = offered (find (λ (s : SkillRow). s.id == sv.skill_id) skills) sv

-- The row of a version of this skill.
abbrev own_row : SkillRow → SkillVersionRow → Option Row
own_row s sv = if sv.skill_id == s.id then offered (some s) sv else none

module _ {A B : Type 0} (f g h : A → Option B)
    (split : (x : A) → ((g x ≡ none) × (h x ≡ f x)) ⊎ ((f x ≡ none) × (h x ≡ g x))) where
  filter_map-perm : (xs : List A) → Perm (filter_map f xs ++ filter_map g xs) (filter_map h xs)
  unfolding filter_map
  filter_map-perm [] = Perm.nil
  filter_map-perm (x ∷ xs) = elim (split x) [
    | inl (e, k) ↦ elim (Option-cases (f x)) [
      | inl n ↦ rw (e, k, n) (filter_map-perm xs)
      | inr (b, n) ↦ rw (e, k, n) (Perm.cons b (filter_map-perm xs))
    ]
    | inr (e, k) ↦ elim (Option-cases (g x)) [
      | inl n ↦ rw (e, k, n) (filter_map-perm xs)
      | inr (b, n) ↦
          rw (e, k, n)
            (Perm.trans (perm_middle (filter_map f xs) (filter_map g xs))
              (Perm.cons b (filter_map-perm xs)))
    ]
  ]

own_rows-eq :
    (s : SkillRow) (versions : List SkillVersionRow)
    → own s versions ≡ filter_map (own_row s) versions
unfolding own filter_map keep is_listed
own_rows-eq s [] = refl
own_rows-eq s (sv ∷ svs) = elim (Bool-cases (sv.skill_id == s.id)) [
  | inr f ↦ rw f (own_rows-eq s svs)
  | inl t ↦ elim (Bool-cases (text_eq s.visibility (text "public"))) [
    | inr v ↦ elim (Option-cases sv.yanked_at) [
      | inl y ↦ rw (t, v, y) (own_rows-eq s svs)
      | inr (at, y) ↦ rw (t, v, y) (own_rows-eq s svs)
    ]
    | inl v ↦ elim (Option-cases sv.yanked_at) [
      | inl y ↦ simp (t, v, y, own_rows-eq s svs)
      | inr (at, y) ↦ rw (t, v, y) (own_rows-eq s svs)
    ]
  ]
]

-- No other skill has the id.
unfound :
    (s : SkillRow) (skills : List SkillRow) (sv : SkillVersionRow)
    → All (λ t. (t.id == s.id) ≡ false) skills
    → sv.skill_id == s.id ≡ true
    → find (λ (t : SkillRow). t.id == sv.skill_id) skills ≡ none
unfolding find
unfound s [] sv h e = refl
unfound s (t ∷ skills) sv h e = ground (arith, h.0, e, unfound s skills sv h.1 e)

row_split :
    (s : SkillRow) (skills : List SkillRow)
    → All (λ t. (t.id == s.id) ≡ false) skills
    → (sv : SkillVersionRow)
    → ((public_row skills sv ≡ none) × (public_row (s ∷ skills) sv ≡ own_row s sv))
      ⊎ ((own_row s sv ≡ none) × (public_row (s ∷ skills) sv ≡ public_row skills sv))
unfolding find
row_split s skills h sv = elim (Bool-cases (sv.skill_id == s.id)) [
  | inl t ↦
      let back : s.id == sv.skill_id ≡ true = ground (arith, t) in
      let gone = unfound s skills sv h t in inl (rw gone refl, rw (t, back) refl)
  | inr f ↦
      let back : s.id == sv.skill_id ≡ false = ground (arith, f) in inr (rw f refl, rw back refl)
]

listed-once :
    (skills : List SkillRow) (versions : List SkillVersionRow)
    → Apart (λ s t. t.id == s.id) skills
    → Perm (listed skills versions) (filter_map (public_row skills) versions)
unfolding listed filter_map find
listed-once [] versions h = nothing versions
  where
    nothing : (svs : List SkillVersionRow) → Perm [] (filter_map (public_row []) svs)
    nothing [] = Perm.nil
    nothing (sv ∷ svs) = nothing svs
listed-once (s ∷ skills) versions h =
    rw (listed-cons s skills versions, own_rows-eq s versions)
      (Perm.trans
        (Perm.append_left (filter_map (own_row s) versions) (listed-once skills versions h.1))
        (filter_map-perm (own_row s) (public_row skills) (public_row (s ∷ skills))
          (row_split s skills h.0) versions))

-- What the public queries select is one row for each version that is to be seen.
pub listed_rows-once :
    (db : Db)
    → IsWellFormed db
    → Perm
        (keep is_listed (join db.skills db.skill_versions))
        (filter_map (public_row db.skills) db.skill_versions)
unfolding listed
listed_rows-once db w = listed-once db.skills db.skill_versions w.skill_ids
