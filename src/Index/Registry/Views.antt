-- ===== src/Index/Registry/Views.antt =====
-- What the statements do to the registry that the tables stand for.
use agentenv_skills_hub.Common.Apart.{All_at_find}
use agentenv_skills_hub.Common.Find.{find-map_eq, find-true, none-some}
use agentenv_skills_hub.Index.Registry.{view, update, same_key}
use agentenv_skills_hub.Common.Text.Laws.{text_rules, text_eq_iff}
use agentenv_skills_hub.Common.Text.{text_eq, Text}
use agentenv_skills_hub.Core.Model.{OffsetDateTime, Uuid}
use agentenv_skills_hub.Index.Postgres.Lookup.{lookup_version}
use agentenv_skills_hub.Index.Postgres.WellFormed.{find-id, IsWellFormed}
use agentenv_skills_hub.Index.Tables.{
  joined_record, update_latest, is_version, is_skill, SkillVersionRow, select_skill_version,
  SkillRow, Db,
}
use agentenv_skills_hub.Common.{
  ◌&&◌, ◌≡◌, refl, arith, ap, sym, ◌∙◌, inl, inr, true, false, none, some, ◌∷◌, Option-cases,
  Bool-cases, find, any, if◌then◌else◌, ◌==◌, Bool,
}

-- A row that is found belongs to a skill that is there.
module _ (db : Db) (w : IsWellFormed db) (row : SkillRow)
    (unused : any (λ s. s.id == row.id) db.skills ≡ false) where
  unowned :
      (p : SkillVersionRow → Bool) (sv : SkillVersionRow)
      → find p db.skill_versions ≡ some sv
      → (row.id == sv.skill_id) ≡ false
  unowned p sv h = elim (Bool-cases (row.id == sv.skill_id)) [
    | inl same ↦
        let e : row.id ≡ sv.skill_id = ground arith in
        let owned =
          All_at_find (λ (sv : SkillVersionRow). any (λ s. s.id == sv.skill_id) db.skills ≡ true) p
            db.skill_versions sv w.references h in
        absurd (ground (arith, rw (← e) at owned, unused))
    | inr other ↦ other
  ]

  select-new_skill :
      (k : Uuid) (version : Text)
      → select_skill_version k version (record db { skills = row ∷ db.skills })
        ≡ select_skill_version k version db
  unfolding select_skill_version
  select-new_skill k version = elim (Option-cases (find (is_version k version) db.skill_versions)) [
    | inl e ↦ rw e refl
    | inr (sv, e) ↦ rw e (rw (unowned (is_version k version) sv e) refl)
  ]

  select-unused : (version : Text) → select_skill_version row.id version db ≡ none
  unfolding select_skill_version
  select-unused version = elim (Option-cases (find (is_version row.id version) db.skill_versions)) [
    | inl e ↦ rw e refl
    | inr (sv, e) ↦ absurd (
        ground (
          arith,
          unowned (is_version row.id version) sv e,
          find-true (is_version row.id version) db.skill_versions e,
        ))
  ]

  -- A skill of a new name and a new id has no versions, and hides none.
  pub view-new_skill :
      (namespace name version : Text)
      → find (is_skill row.namespace row.name) db.skills ≡ none
      → lookup_version namespace name version (record db { skills = row ∷ db.skills })
        ≡ lookup_version namespace name version db
  unfolding lookup_version
  view-new_skill namespace name version unnamed = elim (Bool-cases (is_skill namespace name row)) [
    | inl same ↦
        let e : row.namespace ≡ namespace = grind text_rules in
        let f : row.name ≡ name = grind text_rules in
        rw (rw (e, f) at unnamed, same) (select-new_skill row.id version ∙ select-unused version)
    | inr other ↦ elim (Option-cases (find (is_skill namespace name) db.skills)) [
      | inl e ↦ rw (other, e) refl
      | inr (s, e) ↦ rw (other, e) (select-new_skill s.id version)
    ]
  ]

-- The row of a version that its skill does not have is one new entry.
module _ (row : SkillVersionRow) (db : Db) (s : SkillRow) (namespace name : Text)
    (w : IsWellFormed db) (named : find (is_skill namespace name) db.skills ≡ some s)
    (by_id : find (λ (t : SkillRow). t.id == row.skill_id) db.skills ≡ some s) where
  -- A skill with the row's id is the row's skill.
  owner_unique :
      (n m : Text) (t : SkillRow)
      → find (is_skill n m) db.skills ≡ some t
      → t.id ≡ row.skill_id
      → (s ≡ t) × (namespace ≡ n) × (name ≡ m)
  owner_unique n m t h e =
      let own = find-id (is_skill n m) db.skills t w.skill_ids h in
      let same = some_inj s t (sym by_id ∙ moved t.id row.skill_id e own) in
      let p = find-true (is_skill namespace name) db.skills named in
      let q = find-true (is_skill n m) db.skills h in
      (
        same,
        ground (arith, p, q, same, text_eq_iff s.namespace namespace, text_eq_iff t.namespace n),
        ground (arith, p, q, same, text_eq_iff s.name name, text_eq_iff t.name m),
      )
    where
      some_inj : (a b : SkillRow) → some a ≡ some b → a ≡ b
      some_inj a b h = cc

      moved :
          (j k : Uuid)
          → j ≡ k
          → find (λ (x : SkillRow). x.id == j) db.skills ≡ some t
          → find (λ (x : SkillRow). x.id == k) db.skills ≡ some t
      moved j k e own = rw e at own

  other_owner :
      (n m : Text)
      → find (is_skill n m) db.skills ≡ none
      → (text_eq namespace n && text_eq name m) ≡ false
  other_owner n m h = elim (Bool-cases (text_eq namespace n && text_eq name m)) [
    | inl same ↦
        let e : namespace ≡ n = grind text_rules in
        let f : name ≡ m = grind text_rules in absurd (none-some s (sym h ∙ rw (e, f) at named))
    | inr other ↦ other
  ]

  select-new_version :
      (n m v : Text) (t : SkillRow)
      → find (is_skill n m) db.skills ≡ some t
      → select_skill_version t.id v (record db { skill_versions = row ∷ db.skill_versions }) ≡ (
          if same_key namespace name row.version n m v
          then some (joined_record s row)
          else select_skill_version t.id v db)
  unfolding select_skill_version
  select-new_version n m v t h = elim (Bool-cases (is_version t.id v row)) [
    | inl hit ↦
        let (e, f, g) = owner_unique n m t h (ground arith) in rw (hit, by_id) (grind text_rules)
    | inr miss ↦ elim (Bool-cases (same_key namespace name row.version n m v)) [
      | inl same ↦
          let e : namespace ≡ n = grind text_rules in
          let f : name ≡ m = grind text_rules in
          let st : s ≡ t = some_inj s t (sym named ∙ rw (← e, ← f) at h) in
          let i = find-true (λ (t : SkillRow). t.id == row.skill_id) db.skills by_id in
          absurd (ground (arith, ap (λ (x : SkillRow). x.id) st, i))
      | inr other ↦ rw (miss, other) refl
    ]
  ]
    where
      some_inj : (a b : SkillRow) → some a ≡ some b → a ≡ b
      some_inj a b h = cc

  pub view-new_version :
      (n m v : Text)
      → lookup_version n m v (record db { skill_versions = row ∷ db.skill_versions })
        ≡ update namespace name row.version (some (joined_record s row)) (view db) n m v
  unfolding lookup_version
  view-new_version n m v = elim (Option-cases (find (is_skill n m) db.skills)) [
    | inl e ↦ rw e (ground (arith, other_owner n m e))
    | inr (t, e) ↦ rw e (select-new_version n m v t e)
  ]

-- No entry has the latest version of its skill.
pub view-update_latest :
    (latest : Text) (now : OffsetDateTime) (k : Uuid) (db : Db) (n m v : Text)
    → lookup_version n m v (update_latest latest now k db) ≡ lookup_version n m v db
unfolding lookup_version select_skill_version update_latest
view-update_latest latest now k db n m v =
    rw (find-map_eq (is_skill n m) g db.skills (λ s. ground arith))
      (elim (Option-cases (find (is_skill n m) db.skills)) [
        | inl e ↦ rw e refl
        | inr (s, e) ↦ rw (e, same_id s) (select_lem s.id)
      ])
  where
    g : SkillRow → SkillRow
    g s = if s.id == k then record s { latest_version = some latest; updated_at = now } else s

    same_id : (s : SkillRow) → (g s).id ≡ s.id
    same_id s = ground arith

    select_lem :
        (j : Uuid)
        → select_skill_version j v (update_latest latest now k db) ≡ select_skill_version j v db
    select_lem j = elim (Option-cases (find (is_version j v) db.skill_versions)) [
      | inl e ↦ rw e refl
      | inr (sv, e) ↦
          rw
            (e, find-map_eq (λ (t : SkillRow). t.id == sv.skill_id) g db.skills (λ s. ground arith))
            (elim (Option-cases (find (λ (t : SkillRow). t.id == sv.skill_id) db.skills)) [
              | inl f ↦ rw f refl
              | inr (o, f) ↦ rw f (ground arith)
            ])
    ]
