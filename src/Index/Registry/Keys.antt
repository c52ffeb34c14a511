-- ===== src/Index/Registry/Keys.antt =====
-- What the keys of the tables say of the rows that are found by them.
use agentenv_skills_hub.Common.Find.{found_of_any, any_at_find, find-true}
use agentenv_skills_hub.Common.Text.Laws.{text_rules, text_rules, text_eq_iff}
use agentenv_skills_hub.Core.Model.{Uuid}
use agentenv_skills_hub.Common.Text.{text_eq, Text}
use agentenv_skills_hub.Index.Postgres.WellFormed.{find-id, IsWellFormed}
use agentenv_skills_hub.Index.Tables.{is_skill, is_version, Db, SkillRow, SkillVersionRow}
use agentenv_skills_hub.Common.{
  some, inl, inr, true, false, arith, ap, ◌∙◌, Bool-cases, ◌&&◌, sym, ◌==◌, any, Bool, ◌≡◌, find,
}

pub is_skill_self : (s : SkillRow) → is_skill s.namespace s.name s ≡ true
is_skill_self s = grind text_rules

pub is_skill-flip :
    (s t : SkillRow) → is_skill s.namespace s.name t ≡ false → is_skill t.namespace t.name s ≡ false
is_skill-flip s t h = grind text_rules

pub is_version_self : (s : SkillVersionRow) → is_version s.skill_id s.version s ≡ true
is_version_self s = grind text_rules

pub is_version-flip :
    (s t : SkillVersionRow)
    → is_version s.skill_id s.version t ≡ false
    → is_version t.skill_id t.version s ≡ false
is_version-flip s t h = grind text_rules

abbrev pub names : Text → Text → Uuid → SkillRow → Bool
names namespace name k s = s.id == k && is_skill namespace name s

module _ (db : Db) (w : IsWellFormed db) where
  -- Two skills that are found and have one id are the same.
  same_row :
      (p q : SkillRow → Bool) (s t : SkillRow)
      → find p db.skills ≡ some s
      → find q db.skills ≡ some t
      → s.id ≡ t.id
      → s ≡ t
  same_row p q s t h k e = some_inj s t (
      sym (find-id p db.skills s w.skill_ids h)
      ∙ moved s.id t.id e (find-id q db.skills t w.skill_ids k))
    where
      some_inj : (a b : SkillRow) → some a ≡ some b → a ≡ b
      some_inj a b h = cc

      moved :
          (i j : Uuid)
          → i ≡ j
          → find (λ (x : SkillRow). x.id == j) db.skills ≡ some t
          → find (λ (x : SkillRow). x.id == i) db.skills ≡ some t
      moved i j e own = rw e own

  -- The skill of an id has a name exactly if the skill that is found by the name has the id.
  pub any-names :
      (namespace name n m : Text) (s : SkillRow)
      → find (is_skill n m) db.skills ≡ some s
      → any (names namespace name s.id) db.skills ≡ (text_eq namespace n && text_eq name m)
  any-names namespace name n m s h =
      let p = find-true (is_skill n m) db.skills h in
      elim (Bool-cases (text_eq namespace n && text_eq name m)) [
        | inl same ↦
            let e : namespace ≡ n = grind text_rules in
            let f : name ≡ m = grind text_rules in
            any_at_find (is_skill n m) (names namespace name s.id) db.skills s h
              (rw (e, f) (ground (arith, p)))
            ∙ sym same
        | inr other ↦ elim (Bool-cases (any (names namespace name s.id) db.skills)) [
          | inr missing ↦ missing ∙ sym other
          | inl there_is ↦
              let (t, k) = found_of_any (names namespace name s.id) db.skills there_is in
              let q = find-true (names namespace name s.id) db.skills k in
              let e = same_row (is_skill n m) (names namespace name s.id) s t h k (ground arith) in
              absurd (
                ground (
                  arith,
                  p,
                  q,
                  ap (λ (x : SkillRow). x.namespace) e,
                  ap (λ (x : SkillRow). x.name) e,
                  text_eq_iff s.namespace n,
                  text_eq_iff s.name m,
                  text_eq_iff t.namespace namespace,
                  text_eq_iff t.name name,
                  text_eq_iff namespace n,
                  text_eq_iff name m,
                ))
        ]
      ]
