-- ===== src/Index/Postgres/Yank.antt =====
-- Yanking and unyanking a version.
use agentenv_skills_hub.Common.Find.{any_at_find, find-map, find-true}
use agentenv_skills_hub.Common.Text.{Text}
use agentenv_skills_hub.Core.Model.{OffsetDateTime, SkillVersionRecord}
use agentenv_skills_hub.Index.Postgres.WellFormed.{found_rows-state}
use agentenv_skills_hub.Index.Postgres.Lookup.{
  lookup_of_Found, Found-of_lookup, lookup_version, Found,
}
use agentenv_skills_hub.Index.Tables.{
  set_yank, Db, SkillRow, SkillVersionRow, is_skill, is_version, is_target,
}
use agentenv_skills_hub.Common.{
  [], inr, inl, Bool-cases, length, ◌<◌, List, Bool, keep, ◌&&◌, ◌==◌, true, Option, ◌≡◌, some,
  none, ok, if◌then◌else◌, ◌∙◌, ap, find, arith, ◌∷◌,
}
use agentenv_skills_hub.Index.Postgres.{update_yank, Session, yank_version, unyank_version}

-- The version's record with another yank mark.
abbrev pub marked : Option OffsetDateTime → Option Text → SkillVersionRecord → SkillVersionRecord
marked at reason r = record r { yanked_at = at; yank_reason = reason }

-- A version that is named is a target of the update.
Found-is_target :
    {namespace name version : Text} {db : Db} {r : SkillVersionRecord}
    → (f : Found namespace name version db r)
    → is_target namespace name version db.skills f.row ≡ true
unfolding is_target
Found-is_target {namespace} {name} {version} {db} f =
    let t = find-true (is_version f.skill.id version) db.skill_versions f.versioned in
    let n = find-true (is_skill namespace name) db.skills f.named in
    let o =
      any_at_find (is_skill namespace name)
        (λ (s : SkillRow). s.id == f.row.skill_id && is_skill namespace name s) db.skills f.skill
        f.named (ground arith) in
    ground (arith, o)

Found-set_yank :
    {namespace name version : Text} {db : Db} {r : SkillVersionRecord} (at : Option OffsetDateTime)
    (reason : Option Text)
    → Found namespace name version db r
    → Found namespace name version
        (set_yank at reason namespace name version db).1
        (marked at reason r)
unfolding set_yank
Found-set_yank {namespace} {name} {version} {db} at reason f =
    let g = λ (sv : SkillVersionRow).
      if is_target namespace name version db.skills sv
      then record sv { yanked_at = at; yank_reason = reason }
      else sv in
    record {
      skill = f.skill;
      row = g f.row;
      owner = f.owner;
      named = f.named;
      versioned =
          find-map (is_version f.skill.id version) g db.skill_versions f.row (λ sv. ground arith)
            f.versioned;
      owned = ground (arith, f.owned, Found-is_target f);
      joined = ground (arith, f.joined, Found-is_target f);
    }

keep_at_find :
    (p q : SkillVersionRow → Bool) (xs : List SkillVersionRow) (a : SkillVersionRow)
    → find p xs ≡ some a
    → q a ≡ true
    → 0 < length (keep q xs)
unfolding find keep
keep_at_find p q [] a h k = cc
keep_at_find p q (x ∷ xs) a h k = elim (Bool-cases (p x)) [
  | inl e ↦ rw (ap q (some_inj x a (rw e at h)) ∙ k) (omega arith)
  | inr e ↦ ground (arith, keep_at_find p q xs a (rw e at h) k)
]
  where
    some_inj : (x a : SkillVersionRow) → some x ≡ some a → x ≡ a
    some_inj x a h = cc

pub rows_of_Found :
    {namespace name version : Text} {db : Db} {r : SkillVersionRecord} (at : Option OffsetDateTime)
    (reason : Option Text)
    → Found namespace name version db r
    → 0 < (set_yank at reason namespace name version db).0
unfolding set_yank
rows_of_Found {namespace} {name} {version} {db} at reason f =
    keep_at_find (is_version f.skill.id version) (is_target namespace name version db.skills)
      db.skill_versions f.row f.versioned (Found-is_target f)

module _ (session : Session) (namespace name version reason : Text) (db : Db)
    (works : session.fault update_yank ≡ none) where
  -- Yanking a version that is there marks it with the time and the reason, and unyanking it takes the
  -- mark away; nothing else of the version changes. The update does not fail.
  pub yank-unyank-lookup :
      (r : SkillVersionRecord)
      → lookup_version namespace name version db ≡ some r
      → (yank_version session namespace name version reason db
          ≡ (ok tt, (set_yank (some session.now) (some reason) namespace name version db).1))
        × (lookup_version namespace name version
              (yank_version session namespace name version reason db).1
            ≡ some (marked (some session.now) (some reason) r))
        × (lookup_version namespace name version
              (unyank_version session namespace name version db).1
            ≡ some (marked none none r))
  unfolding yank_version unyank_version
  yank-unyank-lookup r l =
      let f = Found-of_lookup l in
      let y = lookup_of_Found (Found-set_yank (some session.now) (some reason) f) in
      let u = lookup_of_Found (Found-set_yank none none f) in
      let p = rows_of_Found (some session.now) (some reason) f in
      let q = rows_of_Found none none f in
      (
        ground (arith, p),
        rw works (rw (found_rows-state namespace name version _) y),
        rw works (rw (found_rows-state namespace name version _) u),
      )
