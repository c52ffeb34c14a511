-- ===== src/Index/Queries/Namespace.antt =====
-- The rows of the index of one namespace, and their keys.
use agentenv_skills_hub.Common.Text.Laws.{text_eq_iff}
use agentenv_skills_hub.Common.Apart.{Apart-unique}
use agentenv_skills_hub.Common.Text.{text_eq, Text}
use agentenv_skills_hub.Index.Postgres.WellFormed.{IsWellFormed}
use agentenv_skills_hub.Index.Queries.{is_listed, Row, with_skill, join}
use agentenv_skills_hub.Index.Tables.{is_skill, is_version, Db, SkillVersionRow, SkillRow}
use mathlib.Core.List.{Mem, mem-append, mem-cons, not-mem-nil, mem-cons_of_mem}
use mathlib.Core.Logic.Or
use agentenv_skills_hub.Common.{arith, ◌&&◌, ◌∙◌, keep, true, ap, ◌≡◌, ◌==◌, List, [], ◌∷◌}
use agentenv_skills_hub.Index.Queries.Public.{mem-keep}

-- A joined row is a skill and a version of it.
mem-with_skill :
    (x s : SkillRow) (sv : SkillVersionRow) (versions : List SkillVersionRow)
    → Mem (s, sv) (with_skill x versions)
    → (s ≡ x) × Mem sv versions
mem-with_skill x s sv [] m = absurd (not-mem-nil m)
mem-with_skill x s sv (v ∷ versions) m =
    Or.elim (hlevel) (mem-cons.0 m)
      (λ e. (ap (λ (r : Row). r.0) e, mem-cons.1 (Or.inl (ap (λ (r : Row). r.1) e))))
      (λ n. let (e, k) = mem-with_skill x s sv versions n in (e, mem-cons_of_mem v k))

pub mem-join :
    (s : SkillRow) (sv : SkillVersionRow) (skills : List SkillRow) (versions : List SkillVersionRow)
    → Mem (s, sv) (join skills versions)
    → Mem s skills × Mem sv versions × (sv.skill_id == s.id ≡ true)
unfolding join
mem-join s sv [] versions m = absurd (not-mem-nil m)
mem-join s sv (x ∷ skills) versions m =
    Or.elim (hlevel) (mem-append.0 m)
      (λ n.
        let (e, k) = mem-with_skill x s sv (keep (λ v. v.skill_id == x.id) versions) n in
        let (o, l) = mem-keep (λ (v : SkillVersionRow). v.skill_id == x.id) sv versions k in
        (mem-cons.1 (Or.inl e), l, owned x e o))
      (λ n. let (k, l, o) = mem-join s sv skills versions n in (mem-cons_of_mem x k, l, o))
  where
    owned : (x : SkillRow) → s ≡ x → sv.skill_id == x.id ≡ true → sv.skill_id == s.id ≡ true
    owned x e o = rw e o

-- The rows of the public versions of a namespace that are not yanked.
abbrev pub own_rows : Db → Text → List Row
own_rows db namespace =
    keep (λ r. text_eq r.0.namespace namespace && is_listed r) (join db.skills db.skill_versions)

module _ (db : Db) (w : IsWellFormed db) (namespace : Text) where
  pub record IsOwn (s : SkillRow) (sv : SkillVersionRow) : Type 0 where
    pub skill : Mem s db.skills
    pub version : Mem sv db.skill_versions
    pub owned : sv.skill_id == s.id ≡ true
    pub inside : text_eq s.namespace namespace ≡ true
    pub listed : is_listed (s, sv) ≡ true

  pub own_rows-IsOwn :
      (s : SkillRow) (sv : SkillVersionRow) → Mem (s, sv) (own_rows db namespace) → IsOwn s sv
  own_rows-IsOwn s sv m =
      let (p, n) =
        mem-keep (λ (r : Row). text_eq r.0.namespace namespace && is_listed r) (s, sv)
          (join db.skills db.skill_versions) m in
      let (k, l, o) = mem-join s sv db.skills db.skill_versions n in
      record {
        skill = k;
        version = l;
        owned = o;
        inside = ground (arith, p);
        listed = ground (arith, p);
      }

  pub same_skill :
      (s t : SkillRow)
      → Mem s db.skills
      → Mem t db.skills
      → text_eq s.namespace namespace ≡ true
      → text_eq t.namespace namespace ≡ true
      → s.name ≡ t.name
      → s ≡ t
  same_skill s t m n h k e =
      Apart-unique (hlevel) (λ (x : SkillRow). x) (λ a b. is_skill a.namespace a.name b)
        (λ a b c. ground (
          arith,
          text_eq_iff a.namespace b.namespace,
          text_eq_iff b.namespace a.namespace,
          text_eq_iff a.name b.name,
          text_eq_iff b.name a.name,
        ))
        db.skills s t w.skill_names m n
        (ground (
          arith,
          e,
          text_eq_iff s.namespace namespace,
          text_eq_iff t.namespace namespace,
          text_eq_iff t.namespace s.namespace,
          text_eq_iff t.name s.name,
        ))

  -- Two such rows of one name and version are one, in what a function into a set sees of them.
  pub own_rows_unique {κ} :
      {B : Type κ} (set : IsSet B) (f : Row → B) (s t : SkillRow) (sv tv : SkillVersionRow)
      → Mem (s, sv) (own_rows db namespace)
      → Mem (t, tv) (own_rows db namespace)
      → s.name ≡ t.name
      → sv.version ≡ tv.version
      → f (s, sv) ≡ f (t, tv)
  own_rows_unique set f s t sv tv m n e v =
      let p = own_rows-IsOwn s sv m in
      let q = own_rows-IsOwn t tv n in
      let same = same_skill s t p.skill q.skill p.inside q.inside e in
      ap (λ (x : SkillRow). f (x, sv)) same
      ∙ Apart-unique set (λ (x : SkillVersionRow). f (t, x))
          (λ a b. is_version a.skill_id a.version b)
          (λ a b c.
            ground (arith, text_eq_iff a.version b.version, text_eq_iff b.version a.version))
          db.skill_versions sv tv w.version_keys p.version q.version
          (ground (
            arith,
            p.owned,
            q.owned,
            ap (λ (x : SkillRow). x.id) same,
            text_eq_iff tv.version sv.version,
          ))
