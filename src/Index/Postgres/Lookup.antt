-- ===== src/Index/Postgres/Lookup.antt =====
-- The version that a namespace, a name and a version string stand for, and what the statements do
-- to it.
use agentenv_skills_hub.Common.Find.{any_of_find, find_skip, find-map, false-true, none-some}
use agentenv_skills_hub.Common.{
  ◌≡◌, inl, inr, arith, ap, sym, ◌∙◌, false, Option, none, some, ◌∷◌, find, any, Bool-cases,
  Option-cases, ◌==◌, if◌then◌else◌,
}
use agentenv_skills_hub.Common.Text.{Text}
use agentenv_skills_hub.Common.Text.Laws.{text_eq_iff}
use agentenv_skills_hub.Core.Model.{Uuid, OffsetDateTime, SkillVersionRecord}
use agentenv_skills_hub.Index.Tables.{
  SkillRow, SkillVersionRow, Db, is_skill, is_version, joined_record, select_skill_version,
  update_latest,
}

abbrev pub in_skill : Text → Db → Option SkillRow → Option SkillVersionRecord
in_skill version db none = none
in_skill version db (some s) = select_skill_version s.id version db

unfoldable pub lookup_version : Text → Text → Text → Db → Option SkillVersionRecord
unfolding find
lookup_version namespace name version db =
    in_skill version db (find (is_skill namespace name) db.skills)

-- A version is the skill of that name, its version row, and the skill row of that row's id.
pub record Found (namespace name version : Text) (db : Db) (r : SkillVersionRecord) : Type 0 where
  pub skill : SkillRow
  pub row : SkillVersionRow
  pub owner : SkillRow
  pub named : find (is_skill namespace name) db.skills ≡ some skill
  pub versioned : find (is_version skill.id version) db.skill_versions ≡ some row
  pub owned : find (λ (s : SkillRow). s.id == row.skill_id) db.skills ≡ some owner
  pub joined : joined_record owner row ≡ r

module _ {namespace name version : Text} {db : Db} {r : SkillVersionRecord} where
  pub lookup_of_Found :
      Found namespace name version db r → lookup_version namespace name version db ≡ some r
  unfolding lookup_version select_skill_version
  lookup_of_Found f = rw f.named (rw f.versioned (rw f.owned (ap some f.joined)))

  pub select_of_Found :
      (f : Found namespace name version db r) → select_skill_version f.skill.id version db ≡ some r
  unfolding select_skill_version
  select_of_Found f = rw f.versioned (rw f.owned (ap some f.joined))

  pub Found-of_lookup :
      lookup_version namespace name version db ≡ some r → Found namespace name version db r
  unfolding lookup_version select_skill_version
  Found-of_lookup h = elim (Option-cases (find (is_skill namespace name) db.skills)) [
    | inl missing ↦ absurd (none-some r (rw missing at h))
    | inr s ↦
        let h1 = rw s.1 at h in
        elim (Option-cases (find (is_version s.0.id version) db.skill_versions)) [
          | inl missing ↦ absurd (none-some r (rw missing at h1))
          | inr sv ↦
              let h2 = rw sv.1 at h1 in
              elim (Option-cases (find (λ (t : SkillRow). t.id == sv.0.skill_id) db.skills)) [
                | inl missing ↦ absurd (none-some r (rw missing at h2))
                | inr t ↦ record {
                  skill = s.0;
                  row = sv.0;
                  owner = t.0;
                  named = s.1;
                  versioned = sv.1;
                  owned = t.1;
                  joined = cc (rw t.1 at h2);
                }
              ]
        ]
  ]

module _ (row : SkillRow) (db : Db) where
  other_name :
      (namespace name : Text) (s : SkillRow)
      → find (is_skill row.namespace row.name) db.skills ≡ none
      → find (is_skill namespace name) db.skills ≡ some s
      → is_skill namespace name row ≡ false
  other_name namespace name s unnamed h = elim (Bool-cases (is_skill namespace name row)) [
    | inl same ↦
        let e : row.namespace ≡ namespace =
          (text_eq_iff row.namespace namespace).0 (ground arith) in
        let f : row.name ≡ name = (text_eq_iff row.name name).0 (ground arith) in
        absurd (none-some s (sym unnamed ∙ rw (e, f) h))
    | inr other ↦ other
  ]

  other_id :
      (k : Uuid) (s : SkillRow)
      → any (λ t. t.id == row.id) db.skills ≡ false
      → find (λ (t : SkillRow). t.id == k) db.skills ≡ some s
      → (row.id == k) ≡ false
  other_id k s unused h = elim (Bool-cases (row.id == k)) [
    | inl same ↦
        let e : row.id ≡ k = ground arith in
        absurd (
          false-true
            (sym unused ∙ any_of_find (λ (t : SkillRow). t.id == row.id) db.skills s (rw e h)))
    | inr other ↦ other
  ]

  -- A skill of a new name and a new id hides no version.
  pub Found-new_skill :
      {namespace name version : Text} {r : SkillVersionRecord}
      → any (λ t. t.id == row.id) db.skills ≡ false
      → find (is_skill row.namespace row.name) db.skills ≡ none
      → Found namespace name version db r
      → Found namespace name version (record db { skills = row ∷ db.skills }) r
  Found-new_skill {namespace} {name} unused unnamed f = record {
    skill = f.skill;
    row = f.row;
    owner = f.owner;
    named =
        find_skip (is_skill namespace name) row db.skills
          (other_name namespace name f.skill unnamed f.named)
        ∙ f.named;
    versioned = f.versioned;
    owned =
        find_skip (λ (t : SkillRow). t.id == f.row.skill_id) row db.skills
          (other_id f.row.skill_id f.owner unused f.owned)
        ∙ f.owned;
    joined = f.joined;
  }

module _ (row : SkillVersionRow) (db : Db) where
  other_version :
      (k : Uuid) (version : Text) (sv : SkillVersionRow)
      → find (is_version row.skill_id row.version) db.skill_versions ≡ none
      → find (is_version k version) db.skill_versions ≡ some sv
      → is_version k version row ≡ false
  other_version k version sv unversioned h = elim (Bool-cases (is_version k version row)) [
    | inl same ↦
        let e : row.skill_id ≡ k = ground arith in
        let f : row.version ≡ version = (text_eq_iff row.version version).0 (ground arith) in
        absurd (none-some sv (sym unversioned ∙ rw (e, f) h))
    | inr other ↦ other
  ]

  -- A row for a version that the skill does not have hides no version.
  pub Found-new_version :
      {namespace name version : Text} {r : SkillVersionRecord}
      → find (is_version row.skill_id row.version) db.skill_versions ≡ none
      → Found namespace name version db r
      → Found namespace name version (record db { skill_versions = row ∷ db.skill_versions }) r
  Found-new_version {version} unversioned f = record {
    skill = f.skill;
    row = f.row;
    owner = f.owner;
    named = f.named;
    versioned =
        find_skip (is_version f.skill.id version) row db.skill_versions
          (other_version f.skill.id version f.row unversioned f.versioned)
        ∙ f.versioned;
    owned = f.owned;
    joined = f.joined;
  }

-- The latest version of a skill is in no version's record.
pub Found-update_latest :
    {namespace name version : Text} (latest : Text) (now : OffsetDateTime) (k : Uuid) (db : Db)
    {r : SkillVersionRecord}
    → Found namespace name version db r
    → Found namespace name version (update_latest latest now k db) r
unfolding update_latest
Found-update_latest {namespace} {name} {version} latest now k db f =
    let g = λ (s : SkillRow).
      if s.id == k then record s { latest_version = some latest; updated_at = now } else s in
    record {
      skill = g f.skill;
      row = f.row;
      owner = g f.owner;
      named = find-map (is_skill namespace name) g db.skills f.skill (λ s. ground arith) f.named;
      versioned = rw (same_id f.skill) f.versioned;
      owned =
          find-map (λ (t : SkillRow). t.id == f.row.skill_id) g db.skills f.owner
            (λ s. ground arith) f.owned;
      joined = ground arith;
    }
  where
    same_id :
        (s : SkillRow)
        → (if s.id == k then record s { latest_version = some latest; updated_at = now } else s).id
          ≡ s.id
    same_id s = ground arith
