-- ===== src/Index/Registry/Marks.antt =====
-- The update of the yank marks, as one changed entry of the registry that the tables stand for.
use agentenv_skills_hub.Index.Registry.Keys.{any-names}
use agentenv_skills_hub.Common.Find.{find-map_eq, find-true}
use agentenv_skills_hub.Index.Postgres.Yank.{marked}
use mathlib.Core.Path.{fun_ext}
use mathlib.Core.Option
use mathlib.Core.Option.{Option}
use agentenv_skills_hub.Index.Registry.{view, update, same_key}
use agentenv_skills_hub.Common.Text.Laws.{text_rules}
use agentenv_skills_hub.Index.Postgres.Lookup.{lookup_version}
use agentenv_skills_hub.Core.Model.{OffsetDateTime}
use agentenv_skills_hub.Common.Text.{Text}
use agentenv_skills_hub.Index.Postgres.WellFormed.{IsWellFormed}
use agentenv_skills_hub.Index.Tables.{
  join_skill, join_row, is_version, set_yank, SkillVersionRow, is_target, select_skill_version,
  is_skill, SkillRow, Db,
}
use agentenv_skills_hub.Common.{
  Option-cases, if◌then◌else◌, Option, find, ◌≡◌, refl, arith, sym, ◌∙◌, inl, inr, some, Bool-cases,
  ◌==◌,
}

module _ (db : Db) (w : IsWellFormed db) where
  module _ (at : Option OffsetDateTime) (reason : Option Text) (namespace name version : Text) where
    marks : SkillVersionRow → SkillVersionRow
    unfolding is_target
    marks sv =
        if is_target namespace name version db.skills sv
        then record sv { yanked_at = at; yank_reason = reason }
        else sv

    target_lem :
        (n m v : Text) (s : SkillRow) (sv : SkillVersionRow)
        → find (is_skill n m) db.skills ≡ some s
        → find (is_version s.id v) db.skill_versions ≡ some sv
        → is_target namespace name version db.skills sv ≡ same_key namespace name version n m v
    unfolding is_target
    target_lem n m v s sv h k =
        let q = find-true (is_version s.id v) db.skill_versions k in
        let e : sv.skill_id ≡ s.id = ground arith in
        let f : sv.version ≡ v = grind text_rules in
        rw (e, any-names db w namespace name n m s h, f) (grind text_rules)

    marked_join :
        (n m v : Text) (s : SkillRow)
        → find (is_skill n m) db.skills ≡ some s
        → select_skill_version s.id v (set_yank at reason namespace name version db).1 ≡ (
            if same_key namespace name version n m v
            then Option.map (marked at reason) (select_skill_version s.id v db)
            else select_skill_version s.id v db)
    unfolding select_skill_version set_yank marks
    marked_join n m v s h =
        rw (find-map_eq (is_version s.id v) marks db.skill_versions (λ sv. ground arith))
          (elim (Option-cases (find (is_version s.id v) db.skill_versions)) [
            | inl e ↦ rw e (ground arith)
            | inr (sv, e) ↦ rw e (marked_row sv (target_lem n m v s sv h e))
          ])
      where
        owned_row :
            (sv : SkillVersionRow)
            → join_row
                (record sv { yanked_at = at; yank_reason = reason })
                (find (λ (s : SkillRow). s.id == sv.skill_id) db.skills)
              ≡ Option.map
                  (marked at reason)
                  (join_row sv (find (λ (s : SkillRow). s.id == sv.skill_id) db.skills))
        owned_row sv =
            elim (Option-cases (find (λ (s : SkillRow). s.id == sv.skill_id) db.skills)) [
              | inl e ↦ rw e refl
              | inr (o, e) ↦ rw e refl
            ]

        marked_row :
            (sv : SkillVersionRow)
            → is_target namespace name version db.skills sv ≡ same_key namespace name version n m v
            → join_skill (set_yank at reason namespace name version db).1 (some (marks sv)) ≡ (
                if same_key namespace name version n m v
                then Option.map (marked at reason) (join_skill db (some sv))
                else join_skill db (some sv))
        marked_row sv t = elim (Bool-cases (same_key namespace name version n m v)) [
          | inl e ↦ rw (t ∙ e, e) (owned_row sv)
          | inr e ↦ rw (t ∙ e, e) refl
        ]

    update_here :
        (n m v : Text)
        → update namespace name version
            (Option.map (marked at reason) (view db namespace name version))
            (view db)
            n
            m
            v
          ≡ (if same_key namespace name version n m v
              then Option.map (marked at reason) (view db n m v)
              else view db n m v)
    update_here n m v = elim (Bool-cases (same_key namespace name version n m v)) [
      | inl same ↦
          let e : namespace ≡ n = grind text_rules in
          let f : name ≡ m = grind text_rules in
          let g : version ≡ v = grind text_rules in rw same (rw (e, f, g) refl)
      | inr other ↦ rw other refl
    ]

    marked_view :
        (n m v : Text)
        → view (set_yank at reason namespace name version db).1 n m v ≡ (
            if same_key namespace name version n m v
            then Option.map (marked at reason) (view db n m v)
            else view db n m v)
    unfolding lookup_version set_yank
    marked_view n m v = elim (Option-cases (find (is_skill n m) db.skills)) [
      | inl e ↦ rw e (ground arith)
      | inr (s, e) ↦ rw e (marked_join n m v s e)
    ]

    -- The updated rows are one entry, with the mark.
    pub view-set_yank :
        view (set_yank at reason namespace name version db).1
        ≡ update namespace name version
            (Option.map (marked at reason) (view db namespace name version))
            (view db)
    view-set_yank =
        fun_ext λ n. fun_ext λ m. fun_ext λ v. marked_view n m v ∙ sym (update_here n m v)
