-- ===== src/Index/Queries/Served.antt =====
-- The rows of a namespace that the public queries select, and the versions that the repository's keys
-- stand for.
use agentenv_skills_hub.Index.Queries.Listed.{is_public}
use agentenv_skills_hub.Index.Postgres.Lookup.{lookup_version}
use agentenv_skills_hub.Common.Text.{Text}
use agentenv_skills_hub.Index.Queries.{with_skill, join}
use agentenv_skills_hub.Index.Tables.{is_skill, Db, SkillVersionRow, SkillRow}
use agentenv_skills_hub.Core.Model.{CompatibilitySkillHit, SkillVersionRecord}
use mathlib.Core.List.{Mem, mem-append, mem-cons, not-mem-nil, mem-cons_of_mem}
use mathlib.Core.Logic.Or
use agentenv_skills_hub.Common.{
  arith, ◌∙◌, is_some, ap, sym, not, ◌&&◌, ◌≡◌, ◌==◌, if◌then◌else◌, List, keep, any, Option, Bool,
  refl, [], ◌∷◌, inl, inr, true, false, some, none, Bool-cases,
}

-- What a reader is shown of a record.
abbrev pub hit_of_record : SkillVersionRecord → CompatibilitySkillHit
hit_of_record r = record {
  name = r.name;
  version = r.version;
  description = r.description;
  registry = r.namespace;
  digest = some r.digest;
  signature_ed25519 = r.signature_ed25519;
  public_key_ed25519 = r.public_key_ed25519;
}

abbrev pub is_public_skill : Text → Text → Db → Bool
is_public_skill namespace name db = any (λ s. is_skill namespace name s && is_public s) db.skills

-- A version of a public skill is shown unless it is yanked, and no other version is.
abbrev pub shown : Bool → Option SkillVersionRecord → Option CompatibilitySkillHit
shown visible none = none
shown visible (some r) =
    if visible && not (is_some r.yanked_at) then some (hit_of_record r) else none

-- The version of a registry that a reader may see.
abbrev pub readable : Text → Text → Text → Db → Option CompatibilitySkillHit
readable namespace name version db =
    shown (is_public_skill namespace name db) (lookup_version namespace name version db)

module _ {A : Type 0} (p : A → Bool) where
  pub keep_at_mem : (a : A) (xs : List A) → Mem a xs → p a ≡ true → Mem a (keep p xs)
  unfolding keep
  keep_at_mem a [] m h = absurd (not-mem-nil m)
  keep_at_mem a (x ∷ xs) m h = elim (Bool-cases (p x)) [
    | inl e ↦ rw e (
        Or.elim (hlevel) (mem-cons.0 m) (λ i. mem-cons.1 (Or.inl i))
          (λ n. mem-cons_of_mem x (keep_at_mem a xs n h)))
    | inr e ↦ rw e (
        Or.elim (hlevel) (mem-cons.0 m) (λ i. absurd (clash a x i e h)) (λ n. keep_at_mem a xs n h))
  ]
    where
      clash : (a x : A) → a ≡ x → p x ≡ false → p a ≡ true → ⊥
      clash a x i e h = let k : p x ≡ true = ap p (sym i) ∙ h in ground arith

  pub any_at_mem : (a : A) (xs : List A) → Mem a xs → p a ≡ true → any p xs ≡ true
  unfolding any
  any_at_mem a [] m h = absurd (not-mem-nil m)
  any_at_mem a (x ∷ xs) m h = elim (Bool-cases (p x)) [
    | inl e ↦ rw e refl
    | inr e ↦
        Or.elim (hlevel) (mem-cons.0 m) (λ i. let k : p x ≡ true = ap p (sym i) ∙ h in ground arith)
          (λ n. rw e (any_at_mem a xs n h))
  ]

with_skill_at_mem :
    (s : SkillRow) (sv : SkillVersionRow) (versions : List SkillVersionRow)
    → Mem sv versions
    → Mem (s, sv) (with_skill s versions)
with_skill_at_mem s sv [] m = absurd (not-mem-nil m)
with_skill_at_mem s sv (v ∷ versions) m =
    Or.elim (hlevel) (mem-cons.0 m) (λ i. mem-cons.1 (Or.inl (ap (λ x. (s, x)) i)))
      (λ n. mem-cons_of_mem (s, v) (with_skill_at_mem s sv versions n))

-- A skill and a version of it are a joined row.
pub join_at_mem :
    (s : SkillRow) (sv : SkillVersionRow) (skills : List SkillRow) (versions : List SkillVersionRow)
    → Mem s skills
    → Mem sv versions
    → sv.skill_id == s.id ≡ true
    → Mem (s, sv) (join skills versions)
unfolding join
join_at_mem s sv [] versions m n o = absurd (not-mem-nil m)
join_at_mem s sv (x ∷ skills) versions m n o =
    Or.elim (hlevel) (mem-cons.0 m) (λ i. mem-append.1 (Or.inl (own i)))
      (λ k. mem-append.1 (Or.inr (join_at_mem s sv skills versions k n o)))
  where
    own : s ≡ x → Mem (s, sv) (with_skill x (keep (λ v. v.skill_id == x.id) versions))
    own i = rw (← i) (
        with_skill_at_mem s sv (keep (λ v. v.skill_id == s.id) versions)
          (keep_at_mem (λ (v : SkillVersionRow). v.skill_id == s.id) sv versions n o))
