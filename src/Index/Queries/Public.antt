-- ===== src/Index/Queries/Public.antt =====
-- Which version a name and a version string stand for in public.
use agentenv_skills_hub.Common.Text.Laws.{text_eq_iff}
use agentenv_skills_hub.Core.Model.{SkillVersionRecord}
use agentenv_skills_hub.Common.Text.{text_eq, Text}
use agentenv_skills_hub.Index.Tables.{joined_record, SkillVersionRow, SkillRow, Db}
use agentenv_skills_hub.Index.Postgres.{Session}
use agentenv_skills_hub.Index.Queries.{first_record, join, public_version_by_name, is_listed, Row}
use agentenv_skills_hub.Core.Crates.{Crates}
use agentenv_skills_hub.Common.{
  ◌&&◌, Bool, ◌≡◌, refl, arith, ap, sym, ◌∙◌, ok, some, [], ◌∷◌, inl, inr, true, Bool-cases, List,
  keep,
}
use mathlib.Core.List.{Mem, mem-cons, not-mem-nil, Perm, mem-cons_of_mem}
use mathlib.Core.List.Perm
use mathlib.Core.Logic.Or

module _ {A : Type 0} (p : A → Bool) where
  pub mem-keep : (a : A) (xs : List A) → Mem a (keep p xs) → (p a ≡ true) × Mem a xs
  unfolding keep
  mem-keep a [] m = absurd (not-mem-nil m)
  mem-keep a (x ∷ xs) m = elim (Bool-cases (p x)) [
    | inl e ↦
        Or.elim (hlevel) (mem-cons.0 (rw e at m)) (λ i. (ap p i ∙ e, mem-cons.1 (Or.inl i)))
          (λ n. let (q, k) = mem-keep a xs n in (q, mem-cons_of_mem x k))
    | inr e ↦ let (q, n) = mem-keep a xs (rw e at m) in (q, mem-cons_of_mem x n)
  ]

module _ (crates : Crates) (arrange : List Row → List Row)
    (arrange-perm : (rows : List Row) → Perm (arrange rows) rows) (session : Session) (db : Db)
    (name version : Text) where
  abbrev asked : Row → Bool
  asked r = is_listed r && (text_eq r.0.name name && text_eq r.1.version version)

  -- The row that a record was read from.
  pub record IsPublic (stored : SkillVersionRecord) : Type 0 where
    pub skill : SkillRow
    pub row : SkillVersionRow
    pub joined : joined_record skill row ≡ stored
    pub present : Mem (skill, row) (join db.skills db.skill_versions)
    pub listed : is_listed (skill, row) ≡ true
    pub named : stored.name ≡ name
    pub versioned : stored.version ≡ version

  first-IsPublic :
      (rows : List Row) (stored : SkillVersionRecord)
      → ((r : Row) → Mem r rows → (asked r ≡ true) × Mem r (join db.skills db.skill_versions))
      → first_record crates arrange session db rows ≡ some stored
      → IsPublic stored
  first-IsPublic [] stored found h = absurd (cc)
  first-IsPublic ((s, sv) ∷ rows) stored found h =
      let (a, m) = found (s, sv) (mem-cons.1 (Or.inl refl)) in
      record {
        skill = s;
        row = sv;
        joined = cc;
        present = m;
        listed = ground (arith, a);
        named =
            ap (λ (o : SkillVersionRecord). o.name) (sym (joined_eq s sv stored h))
            ∙ (text_eq_iff s.name name).0 (ground (arith, a));
        versioned =
            ap (λ (o : SkillVersionRecord). o.version) (sym (joined_eq s sv stored h))
            ∙ (text_eq_iff sv.version version).0 (ground (arith, a));
      }
    where
      joined_eq :
          (s : SkillRow) (sv : SkillVersionRow) (stored : SkillVersionRecord)
          → some (joined_record s sv) ≡ some stored
          → joined_record s sv ≡ stored
      joined_eq s sv stored h = cc

  -- The version that a name and a version string stand for is one of a public skill of that name, is
  -- not yanked, and has that version. The server's ORDER BY keeps the rows.
  pub public_version_by_name-IsPublic :
      (stored : SkillVersionRecord)
      → public_version_by_name crates arrange session db name version ≡ ok stored
      → IsPublic stored
  unfolding public_version_by_name
  public_version_by_name-IsPublic stored h =
      first-IsPublic (arrange (keep asked (join db.skills db.skill_versions))) stored
        (λ r m.
          mem-keep asked r (join db.skills db.skill_versions)
            ((Perm.mem_iff (arrange-perm (keep asked (join db.skills db.skill_versions)))).0 m))
        (ground arith)
