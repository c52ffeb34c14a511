-- ===== src/Index/Queries/Laws.antt =====
-- What the index lists, and in which order.
use agentenv_skills_hub.Common.Sort.Laws.{sort-All, sort-IsSorted}
use agentenv_skills_hub.Common.Sort.{sort, IsSorted}
use agentenv_skills_hub.Common.Text.{Text}
use agentenv_skills_hub.Index.Tables.{Db}
use agentenv_skills_hub.Index.Postgres.{Session}
use agentenv_skills_hub.Common.Order.Laws.{eq_of_text_cmp, text_cmp-IsOrder}
use agentenv_skills_hub.Common.Order.{text_cmp, is_le}
use agentenv_skills_hub.Core.Model.{CompatibilityIndex, CompatibilitySkillHit}
use agentenv_skills_hub.Core.Crates.{HasVersionOrder, Crates}
use agentenv_skills_hub.Common.{arith, ◌≡◌, true, false, List, map, All, ok, keep}
use Prim.Native.Nat.{Ordering}
use agentenv_skills_hub.Common.{inl, inr, [], ◌∷◌, ◌⊎◌, refl}
use agentenv_skills_hub.Index.Queries.{
  compare_versions, Row, join, is_listed, hit, hit_cmp, compatibility_index,
}

-- The version of a hit parses.
abbrev pub HasVersion : Crates → CompatibilitySkillHit → Type 0
HasVersion crates h = (v : crates.Version) × (crates.parse_version h.version ≡ ok v)

module _ (crates : Crates) (order : HasVersionOrder crates) where
  hit_cmp-total :
      (a b : CompatibilitySkillHit)
      → HasVersion crates a
      → HasVersion crates b
      → is_le (hit_cmp crates a b) ≡ false
      → is_le (hit_cmp crates b a) ≡ true
  unfolding hit_cmp
  hit_cmp-total a b va vb h =
      let names = text_cmp-IsOrder in
      ground (arith, names.flip a.name b.name, order.flip va.0 vb.0, va.1, vb.1)

  hit_cmp_trans :
      (a b c : CompatibilitySkillHit)
      → HasVersion crates a
      → HasVersion crates b
      → HasVersion crates c
      → is_le (hit_cmp crates a b) ≡ true
      → is_le (hit_cmp crates b c) ≡ true
      → is_le (hit_cmp crates a c) ≡ true
  unfolding hit_cmp
  hit_cmp_trans a b c va vb vc h k =
      let names = text_cmp-IsOrder in
      let (v, p) = va in
      let (w, q) = vb in
      let (u, r) = vc in
      ground (
        arith,
        p,
        q,
        r,
        names.flip a.name b.name,
        names.flip b.name c.name,
        names.flip a.name c.name,
        names.trans a.name b.name c.name,
        names.trans b.name c.name a.name,
        names.trans c.name a.name b.name,
        order.trans v w u,
      )

-- The first of two hits comes before the second: its name is smaller, or it has the same name and a
-- version of no higher precedence.
abbrev pub Precedes : Crates → CompatibilitySkillHit → CompatibilitySkillHit → Type 0
Precedes crates a b =
    (text_cmp a.name b.name ≡ Ordering.lt)
    ⊎ ((a.name ≡ b.name)
        × (v : crates.Version) × (w : crates.Version) × (crates.parse_version a.version ≡ ok v)
        × (crates.parse_version b.version ≡ ok w)
        × (is_le (crates.version_cmp v w) ≡ true))

-- Every hit comes before all later ones.
abbrev pub InOrder : Crates → List CompatibilitySkillHit → Type 0
InOrder crates [] = Unit {0}
InOrder crates (h ∷ hs) = All (Precedes crates h) hs × InOrder crates hs

Ordering-cases : (o : Ordering) → (o ≡ Ordering.lt) ⊎ ((o ≡ Ordering.eq) ⊎ (o ≡ Ordering.gt))
Ordering-cases Ordering.lt = inl refl
Ordering-cases Ordering.eq = inr (inl refl)
Ordering-cases Ordering.gt = inr (inr refl)

module _ (crates : Crates) where
  hit_cmp-Precedes :
      (a b : CompatibilitySkillHit)
      → HasVersion crates a
      → HasVersion crates b
      → is_le (hit_cmp crates a b) ≡ true
      → Precedes crates a b
  unfolding hit_cmp compare_versions
  hit_cmp-Precedes a b (v, p) (w, q) h = elim (Ordering-cases (text_cmp a.name b.name)) [
    | inl e ↦ inl e
    | inr (inl e) ↦ inr (eq_of_text_cmp a.name b.name e, v, w, p, q, ground (arith, e, p, q))
    | inr (inr e) ↦ absurd (ground (arith, e))
  ]

  IsSorted-InOrder :
      (hs : List CompatibilitySkillHit)
      → All (HasVersion crates) hs
      → IsSorted (λ a b. is_le (hit_cmp crates a b)) hs
      → InOrder crates hs
  IsSorted-InOrder [] vs h = tt
  IsSorted-InOrder (a ∷ hs) vs h = (below hs vs.1 h.0, IsSorted-InOrder hs vs.1 h.1)
    where
      below :
          (bs : List CompatibilitySkillHit)
          → All (HasVersion crates) bs
          → All (λ b. is_le (hit_cmp crates a b) ≡ true) bs
          → All (Precedes crates a) bs
      below [] us k = tt
      below (b ∷ bs) us k = (hit_cmp-Precedes a b vs.0 us.0 k.0, below bs us.1 k.1)

-- The rows of the public versions that are not yanked.
abbrev pub listed : Db → List Row
listed db = keep is_listed (join db.skills db.skill_versions)

module _ (crates : Crates) (arrange : List Row → List Row) (session : Session) (db : Db) where
  skills_of :
      (registry : Text) (index : CompatibilityIndex)
      → compatibility_index crates arrange session db registry ≡ ok index
      → index.skills
        ≡ sort (λ a b. is_le (hit_cmp crates a b)) (map (hit registry) (arrange (listed db)))
  unfolding compatibility_index
  skills_of registry index h = ground arith

  -- The index is in order: smaller names come first, and of one name the versions of lower precedence,
  -- if versions are totally ordered and every listed version parses.
  pub compatibility_index-InOrder :
      (registry : Text) (index : CompatibilityIndex)
      → HasVersionOrder crates
      → All (HasVersion crates) (map (hit registry) (arrange (listed db)))
      → compatibility_index crates arrange session db registry ≡ ok index
      → InOrder crates index.skills
  compatibility_index-InOrder registry index order v h =
      let le = λ (a b : CompatibilitySkillHit). is_le (hit_cmp crates a b) in
      rw (skills_of registry index h) (
        IsSorted-InOrder crates _
          (sort-All le (HasVersion crates) (map (hit registry) (arrange (listed db))) v)
          (sort-IsSorted le (HasVersion crates) (hit_cmp-total crates order)
            (hit_cmp_trans crates order) _ v))
