-- ===== src/Index/Queries/Readable.antt =====
-- The rows of a namespace's index, and the versions that a reader may see.
use agentenv_skills_hub.Common.Apart.{find-mem, Apart-unique}
use agentenv_skills_hub.Common.Text.Laws.{text_eq_refl, text_eq_iff}
use agentenv_skills_hub.Index.Queries.Listed.{is_public}
use agentenv_skills_hub.Common.Find.{none-some, find-true, found_of_any}
use agentenv_skills_hub.Index.Postgres.Lookup.{
  Found-of_lookup, Found, lookup_of_Found, lookup_version,
}
use agentenv_skills_hub.Index.Queries.{join, hit, is_listed}
use agentenv_skills_hub.Index.Queries.Namespace.{same_skill, own_rows-IsOwn, own_rows, IsOwn}
use agentenv_skills_hub.Index.Queries.Served.{
  hit_of_record, join_at_mem, keep_at_mem, any_at_mem, shown, is_public_skill, readable,
}
use agentenv_skills_hub.Core.Model.{SkillVersionRecord, CompatibilitySkillHit}
use agentenv_skills_hub.Common.Text.{text_eq, Text}
use agentenv_skills_hub.Index.Postgres.WellFormed.{find-id, IsWellFormed}
use agentenv_skills_hub.Index.Tables.{
  joined_record, is_version, is_skill, SkillVersionRow, SkillRow, Db,
}
use mathlib.Core.List.{Mem}
use agentenv_skills_hub.Common.{
  Bool, is_some, sym, Option-cases, ◌==◌, ap, ◌∙◌, arith, ◌&&◌, find, ◌≡◌, refl, inl, inr, true,
  false, some,
}

shown_iff :
    (visible : Bool) (r : SkillVersionRecord) (h : CompatibilitySkillHit)
    → shown visible (some r) ≡ some h
    → (visible ≡ true) × (is_some r.yanked_at ≡ false) × (hit_of_record r ≡ h)
shown_iff true r h e = elim (Option-cases r.yanked_at) [
  | inl y ↦ (refl, ground (arith, y), some_inj (hit_of_record r) h (rw y at e))
  | inr (at, y) ↦ absurd (none-some h (rw y at e))
]
  where
    some_inj : (a b : CompatibilitySkillHit) → some a ≡ some b → a ≡ b
    some_inj a b h = cc
shown_iff false r h e = absurd (none-some h e)

module _ (db : Db) (w : IsWellFormed db) (namespace : Text) where
  -- The skill of a listed row is the one that its name stands for.
  skill_named :
      (s : SkillRow) (sv : SkillVersionRow)
      → IsOwn db w namespace s sv
      → find (is_skill namespace s.name) db.skills ≡ some s
  skill_named s sv o =
      let (t, e) = found_of_any (is_skill namespace s.name) db.skills (
        any_at_mem (is_skill namespace s.name) s db.skills o.skill
          (ground (arith, o.inside, text_eq_refl s.name))) in
      let p = find-true (is_skill namespace s.name) db.skills e in
      let same : t ≡ s =
        same_skill db w namespace t s (find-mem (is_skill namespace s.name) db.skills t e) o.skill
          (ground (arith, p)) o.inside ((text_eq_iff t.name s.name).0 (ground (arith, p))) in
      e ∙ ap some same

  lookup_named :
      (s : SkillRow) (sv tv : SkillVersionRow)
      → IsOwn db w namespace s sv
      → find (is_version s.id sv.version) db.skill_versions ≡ some tv
      → lookup_version namespace s.name sv.version db ≡ some (joined_record s tv)
  lookup_named s sv tv o f =
      let named = skill_named s sv o in
      let p = find-true (is_version s.id sv.version) db.skill_versions f in
      let own : s.id ≡ tv.skill_id = ground (arith, p) in
      lookup_of_Found (record {
        skill = s;
        row = tv;
        owner = s;
        named = named;
        versioned = f;
        owned =
            ap (λ k. find (λ (t : SkillRow). t.id == k) db.skills) (sym own)
            ∙ find-id (is_skill namespace s.name) db.skills s w.skill_ids named;
        joined = refl;
      })

  public_named :
      (s : SkillRow) (sv : SkillVersionRow)
      → IsOwn db w namespace s sv
      → is_public_skill namespace s.name db ≡ true
  unfolding is_listed
  public_named s sv o =
      any_at_mem (λ t. is_skill namespace s.name t && is_public t) s db.skills o.skill
        (ground (arith, o.inside, o.listed, text_eq_refl s.name))

  shown_row :
      (s : SkillRow) (sv : SkillVersionRow)
      → IsOwn db w namespace s sv
      → shown true (some (joined_record s sv)) ≡ some (hit namespace (s, sv))
  unfolding is_listed
  shown_row s sv o = ground (arith, o.listed, text_eq_iff s.namespace namespace, o.inside)

  -- Every row that the index of the namespace selects is a version that a reader may see.
  pub readable_of_row :
      (s : SkillRow) (sv : SkillVersionRow)
      → Mem (s, sv) (own_rows db namespace)
      → readable namespace s.name sv.version db ≡ some (hit namespace (s, sv))
  readable_of_row s sv m =
      let o = own_rows-IsOwn db w namespace s sv m in
      let here : is_version s.id sv.version sv ≡ true =
        ground (arith, o.owned, text_eq_refl sv.version) in
      let (tv, f) =
        found_of_any (is_version s.id sv.version) db.skill_versions
          (any_at_mem (is_version s.id sv.version) sv db.skill_versions o.version here) in
      let p = find-true (is_version s.id sv.version) db.skill_versions f in
      rw (lookup_named s sv tv o f, public_named s sv o)
        (Apart-unique (hlevel) (λ x. shown true (some (joined_record s x)))
            (λ a b. is_version a.skill_id a.version b)
            (λ a b c.
              ground (arith, text_eq_iff a.version b.version, text_eq_iff b.version a.version))
            db.skill_versions tv sv w.version_keys
            (find-mem (is_version s.id sv.version) db.skill_versions tv f) o.version
            (ground (arith, p, o.owned, text_eq_iff tv.version sv.version, text_eq_refl sv.version))
          ∙ shown_row s sv o)

  -- What a reader may see is a row that the index selects.
  pub record IsRow (name version : Text) (h : CompatibilitySkillHit) : Type 0 where
    pub skill : SkillRow
    pub row : SkillVersionRow
    pub listed : Mem (skill, row) (own_rows db namespace)
    pub same : hit namespace (skill, row) ≡ h
    pub named : skill.name ≡ name
    pub versioned : row.version ≡ version

  public_skill :
      (name : Text) (s : SkillRow)
      → find (is_skill namespace name) db.skills ≡ some s
      → is_public_skill namespace name db ≡ true
      → is_public s ≡ true
  public_skill name s e visible =
      let named = find-true (is_skill namespace name) db.skills e in
      let (t, p) = found_of_any (λ s. is_skill namespace name s && is_public s) db.skills visible in
      let q = find-true (λ s. is_skill namespace name s && is_public s) db.skills p in
      let same : t ≡ s =
        same_skill db w namespace t s
          (find-mem (λ s. is_skill namespace name s && is_public s) db.skills t p)
          (find-mem (is_skill namespace name) db.skills s e) (ground (arith, q))
          (ground (arith, named))
          ((text_eq_iff t.name name).0 (ground (arith, q))
            ∙ sym ((text_eq_iff s.name name).0 (ground (arith, named)))) in
      ap is_public (sym same) ∙ ground (arith, q)

  -- The row of a record belongs to the skill of its name.
  joined-Found :
      (name version : Text) (r : SkillVersionRecord) (f : Found namespace name version db r)
      → joined_record f.skill f.row ≡ r
  joined-Found name version r f =
      let versioned = find-true (is_version f.skill.id version) db.skill_versions f.versioned in
      let own : f.skill.id ≡ f.row.skill_id = ground (arith, versioned) in
      let owner : some f.owner ≡ some f.skill =
        sym f.owned
        ∙ ap (λ k. find (λ (t : SkillRow). t.id == k) db.skills) (sym own)
        ∙ find-id (is_skill namespace name) db.skills f.skill w.skill_ids f.named in
      cc

  IsRow-of_Found :
      (name version : Text) (r : SkillVersionRecord) (h : CompatibilitySkillHit)
      → Found namespace name version db r
      → shown (is_public_skill namespace name db) (some r) ≡ some h
      → IsRow name version h
  unfolding is_listed
  IsRow-of_Found name version r h f e =
      let named = find-true (is_skill namespace name) db.skills f.named in
      let versioned = find-true (is_version f.skill.id version) db.skill_versions f.versioned in
      let inside = (text_eq_iff f.skill.namespace namespace).0 (ground (arith, named)) in
      let joined = joined-Found name version r f in
      let (visible, unyanked, same) = shown_iff (is_public_skill namespace name db) r h e in
      let seen = public_skill name f.skill f.named visible in
      let kept : is_some f.row.yanked_at ≡ false =
        ap (λ (o : SkillVersionRecord). is_some o.yanked_at) joined ∙ unyanked in
      record {
        skill = f.skill;
        row = f.row;
        listed =
            keep_at_mem (λ r. text_eq r.0.namespace namespace && is_listed r) (f.skill, f.row)
              (join db.skills db.skill_versions)
              (join_at_mem f.skill f.row db.skills db.skill_versions
                (find-mem (is_skill namespace name) db.skills f.skill f.named)
                (find-mem (is_version f.skill.id version) db.skill_versions f.row f.versioned)
                (ground (arith, versioned)))
              (ground (arith, named, seen, kept));
        same = ap (λ n. hit n (f.skill, f.row)) (sym inside) ∙ ap hit_of_record joined ∙ same;
        named = (text_eq_iff f.skill.name name).0 (ground (arith, named));
        versioned = (text_eq_iff f.row.version version).0 (ground (arith, versioned));
      }

  pub IsRow-of_readable :
      (name version : Text) (h : CompatibilitySkillHit)
      → readable namespace name version db ≡ some h
      → IsRow name version h
  IsRow-of_readable name version h e =
      elim (Option-cases (lookup_version namespace name version db)) [
        | inl missing ↦ absurd (none-some h (rw missing at e))
        | inr (r, l) ↦ IsRow-of_Found name version r h (Found-of_lookup l) (rw l at e)
      ]
