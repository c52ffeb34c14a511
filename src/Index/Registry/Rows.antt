-- ===== src/Index/Registry/Rows.antt =====
-- How many rows the update of the yank marks writes.
use agentenv_skills_hub.Index.Postgres.Yank.{rows_of_Found}
use agentenv_skills_hub.Common.Apart.{find_own}
use agentenv_skills_hub.Index.Postgres.Lookup.{Found-of_lookup, lookup_of_Found}
use agentenv_skills_hub.Common.Text.Laws.{text_eq_iff}
use agentenv_skills_hub.Index.Registry.Keys.{
  is_version-flip, is_version_self, is_skill-flip, is_skill_self, names,
}
use agentenv_skills_hub.Common.Find.{keep_none, none-some, found_of_any, find-true}
use agentenv_skills_hub.Index.Registry.{view}
use agentenv_skills_hub.Common.Text.{Text}
use agentenv_skills_hub.Core.Model.{Uuid, SkillVersionRecord, OffsetDateTime}
use agentenv_skills_hub.Index.Postgres.WellFormed.{find-id, IsWellFormed}
use agentenv_skills_hub.Index.Tables.{
  joined_record, is_version, is_skill, SkillRow, SkillVersionRow, set_yank, is_target, Db,
}
use agentenv_skills_hub.Common.{
  refl, Option-cases, inr, ◌∙◌, sym, inl, arith, any, Bool-cases, none, length, ap, true, [], keep,
  is_some, some, not, ◌≡◌, ◌==◌, find,
}
use mathlib.Core.Option.{Option}

module _ (db : Db) (w : IsWellFormed db) where
  module _ (at : Option OffsetDateTime) (reason : Option Text) (namespace name version : Text) where
    found_target :
        (sv : SkillVersionRow)
        → find (is_target namespace name version db.skills) db.skill_versions ≡ some sv
        → (r : SkillVersionRecord) × (view db namespace name version ≡ some r)
    unfolding is_target
    found_target sv h =
        let q = find-true (is_target namespace name version db.skills) db.skill_versions h in
        let (t, k) = found_of_any (names namespace name sv.skill_id) db.skills (ground arith) in
        let named = find-true (names namespace name sv.skill_id) db.skills k in
        let e : t.namespace ≡ namespace = (text_eq_iff t.namespace namespace).0 (ground arith) in
        let f : t.name ≡ name = (text_eq_iff t.name name).0 (ground arith) in
        let g : sv.version ≡ version = (text_eq_iff sv.version version).0 (ground arith) in
        let i : t.id ≡ sv.skill_id = ground arith in
        (
          joined_record t sv,
          lookup_of_Found (record {
            skill = t;
            row = sv;
            owner = t;
            named = own_name t t.namespace t.name namespace name e f (
                find_own (λ s t. is_skill s.namespace s.name t) (names namespace name sv.skill_id)
                  db.skills t is_skill_self is_skill-flip w.skill_names k);
            versioned = own_version sv.skill_id t.id sv.version version (sym i) g (
                find_own (λ s t. is_version s.skill_id s.version t)
                  (is_target namespace name version db.skills) db.skill_versions sv is_version_self
                  is_version-flip w.version_keys h);
            owned =
                own_id t.id sv.skill_id t i
                  (find-id (names namespace name sv.skill_id) db.skills t w.skill_ids k);
            joined = refl;
          }),
        )
      where
        own_name :
            (t : SkillRow) (x y a b : Text)
            → x ≡ a
            → y ≡ b
            → find (is_skill x y) db.skills ≡ some t
            → find (is_skill a b) db.skills ≡ some t
        own_name t x y a b e f h = rw (e, f) at h

        own_version :
            (j i : Uuid) (u v : Text)
            → j ≡ i
            → u ≡ v
            → find (is_version j u) db.skill_versions ≡ some sv
            → find (is_version i v) db.skill_versions ≡ some sv
        own_version j i u v e f h = rw (e, f) at h

        own_id :
            (j i : Uuid) (t : SkillRow)
            → j ≡ i
            → find (λ (s : SkillRow). s.id == j) db.skills ≡ some t
            → find (λ (s : SkillRow). s.id == i) db.skills ≡ some t
        own_id j i t e h = rw e at h

    pub rows_written :
        ((set_yank at reason namespace name version db).0 == 0)
        ≡ not (is_some (view db namespace name version))
    unfolding set_yank
    rows_written = elim (Option-cases (view db namespace name version)) [
      | inr (r, e) ↦ let p = rows_of_Found at reason (Found-of_lookup e) in rw e (ground (arith, p))
      | inl e ↦ rw e (no_rows e)
    ]
      where
        zero_rows :
            keep (is_target namespace name version db.skills) db.skill_versions ≡ []
            → ((set_yank at reason namespace name version db).0 == 0) ≡ true
        zero_rows h = rw (ap length h) refl

        no_rows :
            view db namespace name version ≡ none
            → ((set_yank at reason namespace name version db).0 == 0) ≡ true
        no_rows e =
            elim (Bool-cases (any (is_target namespace name version db.skills) db.skill_versions)) [
              | inl there_is ↦
                  let (sv, k) =
                    found_of_any (is_target namespace name version db.skills) db.skill_versions
                      there_is in
                  let (r, f) = found_target sv k in absurd (none-some r (sym e ∙ f))
              | inr nothing ↦
                  zero_rows (
                    keep_none (is_target namespace name version db.skills) db.skill_versions
                      nothing)
            ]
