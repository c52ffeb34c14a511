-- ===== src/Index/Queries/Listing.antt =====
-- What the indexes list.
use agentenv_skills_hub.Index.Queries.Public.{mem-keep}
use agentenv_skills_hub.Common.Text.Laws.{text_eq_iff, text_eq_refl}
use agentenv_skills_hub.Common.Order.{is_le}
use agentenv_skills_hub.Common.Sort.Laws.{sort-perm}
use agentenv_skills_hub.Index.Queries.Served.{keep_at_mem, readable}
use agentenv_skills_hub.Common.Sort.{sort}
use agentenv_skills_hub.Index.Queries.Namespace.{own_rows}
use agentenv_skills_hub.Index.Postgres.{Session}
use agentenv_skills_hub.Index.Postgres.WellFormed.{IsWellFormed}
use agentenv_skills_hub.Core.Model.{CompatibilityIndex, CompatibilitySkillHit}
use agentenv_skills_hub.Core.Crates.{Crates}
use agentenv_skills_hub.Index.Tables.{SkillVersionRow, SkillRow, Db}
use agentenv_skills_hub.Common.Text.{text_eq, Text}
use mathlib.Core.List.{Mem, mem-map, Perm}
use mathlib.Core.List.Perm
use agentenv_skills_hub.Index.Queries.Once.{public_row, listed_rows-once}
use agentenv_skills_hub.Search.Lexical.{filter_map}
use mathlib.Core.Logic.{∥∥₁_elim}
use agentenv_skills_hub.Index.Queries.{
  join, is_listed, hit_cmp, compatibility_index_for_namespace, compatibility_index, Row, hit,
}
use agentenv_skills_hub.Index.Queries.Readable.{readable_of_row, IsRow-of_readable}
use agentenv_skills_hub.Index.Queries.Laws.{listed}
use agentenv_skills_hub.Common.{
  sym, ◌∙◌, ap, arith, ◌&&◌, map, Bool, ◌≡◌, List, ok, some, true, ◌↔◌,
}

-- The test of the handler that looks for a version.
abbrev pub asked : Text → Text → CompatibilitySkillHit → Bool
asked name version h = text_eq h.name name && text_eq h.version version

module _ (db : Db) (w : IsWellFormed db) (namespace : Text) where
  pub readable_of_hit :
      (name version : Text) (h : CompatibilitySkillHit)
      → asked name version h ≡ true
      → Mem h (map (hit namespace) (own_rows db namespace))
      → readable namespace name version db ≡ some h
  readable_of_hit name version h a m =
      ∥∥₁_elim (mem-map.0 m) (hlevel) (λ ((s, sv), k, e). readable_of_pair s sv k e)
    where
      readable_of_pair :
          (s : SkillRow) (sv : SkillVersionRow)
          → Mem (s, sv) (own_rows db namespace)
          → hit namespace (s, sv) ≡ h
          → readable namespace name version db ≡ some h
      readable_of_pair s sv k e =
          let n : s.name ≡ name =
            ap (λ (x : CompatibilitySkillHit). x.name) e
            ∙ (text_eq_iff h.name name).0 (ground (arith, a)) in
          let v : sv.version ≡ version =
            ap (λ (x : CompatibilitySkillHit). x.version) e
            ∙ (text_eq_iff h.version version).0 (ground (arith, a)) in
          ap (λ x. readable namespace x version db) (sym n)
          ∙ ap (λ x. readable namespace s.name x db) (sym v)
          ∙ readable_of_row db w namespace s sv k
          ∙ ap some e

  pub mem_hits_iff :
      (h : CompatibilitySkillHit)
      → Mem h (map (hit namespace) (own_rows db namespace))
        ↔ (readable namespace h.name h.version db ≡ some h)
  mem_hits_iff h = (
    λ m.
        readable_of_hit h.name h.version h
          (ground (arith, text_eq_refl h.name, text_eq_refl h.version)) m,
    λ e.
        let r = IsRow-of_readable db w namespace h.name h.version h e in
        mem-map.1 ∣ ((r.skill, r.row), r.listed, r.same) ∣₁,
  )

-- What a reader of some namespace may see, under the name of the registry.
abbrev pub IsSeen : Db → Text → CompatibilitySkillHit → Type 0
IsSeen db registry h = ∥ (
    (namespace : Text) × (h.registry ≡ registry)
    × (readable namespace h.name h.version db ≡ some (record h { registry = namespace }))) ∥₁

module _ (crates : Crates) (arrange : List Row → List Row)
    (arrange-perm : (rows : List Row) → Perm (arrange rows) rows) (session : Session) (db : Db)
    (w : IsWellFormed db) where
  skills_of_namespace :
      (namespace : Text) (index : CompatibilityIndex)
      → compatibility_index_for_namespace crates arrange session db namespace ≡ ok index
      → index.skills
        ≡ sort
            (λ a b. is_le (hit_cmp crates a b))
            (map (hit namespace) (arrange (own_rows db namespace)))
  unfolding compatibility_index_for_namespace
  skills_of_namespace namespace index h = ground arith

  pub compatibility_index_for_namespace-perm :
      (namespace : Text) (index : CompatibilityIndex)
      → compatibility_index_for_namespace crates arrange session db namespace ≡ ok index
      → Perm index.skills (map (hit namespace) (own_rows db namespace))
  compatibility_index_for_namespace-perm namespace index h =
      rw (skills_of_namespace namespace index h) (
        Perm.trans (sort-perm (λ a b. is_le (hit_cmp crates a b)) _)
          (Perm.map (hit namespace) (arrange-perm (own_rows db namespace))))

  pub namespace_lists :
      (namespace : Text) (index : CompatibilityIndex)
      → compatibility_index_for_namespace crates arrange session db namespace ≡ ok index
      → (h : CompatibilitySkillHit)
      → Mem h index.skills ↔ (readable namespace h.name h.version db ≡ some h)
  namespace_lists namespace index e h =
      let p = compatibility_index_for_namespace-perm namespace index e in
      (
        λ m. (mem_hits_iff db w namespace h).0 ((Perm.mem_iff p).0 m),
        λ r. (Perm.mem_iff p).1 ((mem_hits_iff db w namespace h).1 r),
      )

  own_of_listed :
      (s : SkillRow) (sv : SkillVersionRow)
      → Mem (s, sv) (listed db)
      → Mem (s, sv) (own_rows db s.namespace)
  own_of_listed s sv m =
      let (p, n) = mem-keep is_listed (s, sv) (join db.skills db.skill_versions) m in
      keep_at_mem (λ r. text_eq r.0.namespace s.namespace && is_listed r) (s, sv)
        (join db.skills db.skill_versions) n (ground (arith, p, text_eq_refl s.namespace))

  listed_of_own : (namespace : Text) (r : Row) → Mem r (own_rows db namespace) → Mem r (listed db)
  listed_of_own namespace r m =
      let (p, n) =
        mem-keep (λ (r : Row). text_eq r.0.namespace namespace && is_listed r) r
          (join db.skills db.skill_versions) m in
      keep_at_mem is_listed r (join db.skills db.skill_versions) n (ground (arith, p))

  compatibility_index-perm :
      (registry : Text) (index : CompatibilityIndex)
      → compatibility_index crates arrange session db registry ≡ ok index
      → Perm index.skills (map (hit registry) (listed db))
  unfolding compatibility_index
  compatibility_index-perm registry index h =
      let e : index.skills
          ≡ sort (λ a b. is_le (hit_cmp crates a b)) (map (hit registry) (arrange (listed db))) =
        ground arith in
      rw e (
        Perm.trans (sort-perm (λ a b. is_le (hit_cmp crates a b)) _)
          (Perm.map (hit registry) (arrange-perm (listed db))))

  row-IsSeen :
      (registry : Text) (h : CompatibilitySkillHit) (s : SkillRow) (sv : SkillVersionRow)
      → Mem (s, sv) (listed db)
      → hit registry (s, sv) ≡ h
      → IsSeen db registry h
  row-IsSeen registry h s sv m e = ∣ (
    s.namespace,
    sym (ap (λ (x : CompatibilitySkillHit). x.registry) e),
    ap (λ (x : CompatibilitySkillHit). readable s.namespace x.name x.version db) (sym e)
        ∙ readable_of_row db w s.namespace s sv (own_of_listed s sv m)
        ∙ ap (λ (x : CompatibilitySkillHit). some (record x { registry = s.namespace })) e,
  ) ∣₁

  seen-Mem :
      (registry namespace : Text) (h : CompatibilitySkillHit)
      → h.registry ≡ registry
      → readable namespace h.name h.version db ≡ some (record h { registry = namespace })
      → Mem h (map (hit registry) (listed db))
  seen-Mem registry namespace h named e =
      let r =
        IsRow-of_readable db w namespace h.name h.version (record h { registry = namespace }) e in
      mem-map.1 ∣ (
        (r.skill, r.row),
        listed_of_own namespace (r.skill, r.row) r.listed,
        ap (λ (x : CompatibilitySkillHit). record x { registry = registry }) r.same
            ∙ ap (λ (t : Text). record h { registry = t }) (sym named),
      ) ∣₁

  -- On well-formed tables the index lists what the readers of the namespaces may see, under the name of
  -- the registry, and nothing else: every version of a public skill that is not yanked, as the lookup of
  -- its record finds it. It has one hit for each of these versions. The server's ORDER BY keeps the
  -- rows.
  pub compatibility_index_lists :
      (registry : Text) (index : CompatibilityIndex)
      → compatibility_index crates arrange session db registry ≡ ok index
      → ((h : CompatibilitySkillHit) → Mem h index.skills ↔ IsSeen db registry h)
        × Perm index.skills
            (map (hit registry) (filter_map (public_row db.skills) db.skill_versions))
  compatibility_index_lists registry index e =
      let p = compatibility_index-perm registry index e in
      (
        λ h. (
          λ m.
              ∥∥₁_elim (mem-map.0 ((Perm.mem_iff p).0 m)) (hlevel)
                (λ ((s, sv), k, same). row-IsSeen registry h s sv k same),
          λ seen.
              ∥∥₁_elim seen (hlevel) (λ (namespace, named, r).
                (Perm.mem_iff p).1 (seen-Mem registry namespace h named r)),
        ),
        Perm.trans p (Perm.map (hit registry) (listed_rows-once db w)),
      )
