-- ===== src/Index/Migrations/Ensure.antt =====
-- Creating a list of objects, each where none of its name is there.
use mathlib.Core.List.{mem-cons_of_mem, append_assoc, Mem, mem-append, mem-cons}
use mathlib.Core.Logic.Or
use mathlib.Core.Logic.{◌∨₁◌}
use agentenv_skills_hub.Common.{false, not, ◌&&◌, Bool}
use agentenv_skills_hub.Common.Text.Laws.{text_rules}
use agentenv_skills_hub.Common.Text.Laws.{text_eq_refl}
use agentenv_skills_hub.Common.Text.{text_eq}
use agentenv_skills_hub.Common.Apart.{All-of_any, Apart}
use agentenv_skills_hub.Index.Migrations.{
  init_script, same_name, Object, Catalog, create_if_not_exists,
}
use agentenv_skills_hub.Common.{
  sym, ap, true, ◌∙◌, ◌≡◌, ◌++◌, Bool-cases, All, arith, List, any, [], ◌∷◌, inl, inr, refl,
}

-- Every object is there, or is created, in turn.
unfoldable pub ensure : List Object → Catalog → Catalog
unfolding create_if_not_exists
ensure [] catalog = catalog
ensure (o ∷ objects) catalog = ensure objects (create_if_not_exists o catalog)

-- An object of this name is there.
abbrev pub Has : Catalog → Object → Type 0
Has catalog o = any (same_name o) catalog ≡ true

-- More is there than before, and nothing is changed.
abbrev pub Extends : Catalog → Catalog → Type 0
Extends before after = (added : List Object) × (after ≡ added ++ before)

same_name_refl : (o : Object) → same_name o o ≡ true
same_name_refl o = ground (arith, text_eq_refl o.name)

create-Extends : (o : Object) (c : Catalog) → Extends c (create_if_not_exists o c)
unfolding create_if_not_exists
create-Extends o c = elim (Bool-cases (any (same_name o) c)) [
  | inl e ↦ ([], rw e refl)
  | inr e ↦ (o ∷ [], rw e refl)
]

create-Has : (o : Object) (c : Catalog) → Has (create_if_not_exists o c) o
unfolding create_if_not_exists any
create-Has o c = ground (arith, same_name_refl o)

create-Apart :
    (o : Object) (c : Catalog) → Apart same_name c → Apart same_name (create_if_not_exists o c)
unfolding create_if_not_exists
create-Apart o c apart = elim (Bool-cases (any (same_name o) c)) [
  | inl e ↦ rw e apart
  | inr e ↦ rw e (All-of_any (same_name o) c e, apart)
]

Extends-trans : {a b c : Catalog} → Extends a b → Extends b c → Extends a c
Extends-trans {a} (xs, e) (ys, f) =
    (ys ++ xs, f ∙ ap (λ zs. ys ++ zs) e ∙ sym (append_assoc ys xs a))

Has-Extends :
    {before after : Catalog} (o : Object) → Extends before after → Has before o → Has after o
unfolding any
Has-Extends {before} o (added, e) h = rw e (any-append added)
  where
    any-append : (xs : List Object) → any (same_name o) (xs ++ before) ≡ true
    any-append [] = h
    any-append (x ∷ xs) = ground (arith, any-append xs)

pub ensure-Extends : (objects : List Object) (c : Catalog) → Extends c (ensure objects c)
unfolding ensure
ensure-Extends [] c = ([], refl)
ensure-Extends (o ∷ objects) c =
    Extends-trans (create-Extends o c) (ensure-Extends objects (create_if_not_exists o c))

pub ensure-Has : (objects : List Object) (c : Catalog) → All (Has (ensure objects c)) objects
unfolding ensure
ensure-Has [] c = tt
ensure-Has (o ∷ objects) c = (
  Has-Extends o (ensure-Extends objects (create_if_not_exists o c)) (create-Has o c),
  ensure-Has objects (create_if_not_exists o c),
)

pub ensure-Apart :
    (objects : List Object) (c : Catalog) → Apart same_name c → Apart same_name (ensure objects c)
unfolding ensure
ensure-Apart [] c apart = apart
ensure-Apart (o ∷ objects) c apart =
    ensure-Apart objects (create_if_not_exists o c) (create-Apart o c apart)

pub ensure_there :
    (objects : List Object) (c : Catalog) → All (Has c) objects → ensure objects c ≡ c
unfolding ensure create_if_not_exists
ensure_there [] c h = refl
ensure_there (o ∷ objects) c h = rw h.0 (ensure_there objects c h.1)

-- No two of the objects have one name.
abbrev distinct : List Object → Bool
distinct [] = true
distinct (o ∷ objects) = not (any (same_name o) objects) && distinct objects

same_name_sym : (o p : Object) → same_name o p ≡ same_name p o
same_name_sym o p = grind text_rules

-- Where no object of its name was there, the object itself is there.
abbrev pub IsMade : Catalog → Catalog → Object → Type 0
IsMade before after o = any (same_name o) before ≡ false → Mem o after

Mem-Extends :
    {before after : Catalog} {o : Object} → Extends before after → Mem o before → Mem o after
Mem-Extends {before} {o = o} (added, e) m = rw e (mem-append.1 (Or.inr m))

Mem-create :
    (o : Object) (c : Catalog) → any (same_name o) c ≡ false → Mem o (create_if_not_exists o c)
unfolding create_if_not_exists
Mem-create o c e = rw e (mem-cons.1 (Or.inl refl))

-- Creating another object does not take a name.
unnamed_create :
    (o p : Object) (c : Catalog)
    → same_name o p ≡ false
    → any (same_name p) c ≡ false
    → any (same_name p) (create_if_not_exists o c) ≡ false
unfolding create_if_not_exists any
unnamed_create o p c apart h = ground (arith, same_name_sym o p)

pub ensure_created :
    (objects : List Object) (c : Catalog)
    → distinct objects ≡ true
    → All (IsMade c (ensure objects c)) objects
unfolding ensure any
ensure_created [] c d = tt
ensure_created (o ∷ objects) c d = (
  λ new. Mem-Extends (ensure-Extends objects (create_if_not_exists o c)) (Mem-create o c new),
  later objects (All-of_any (same_name o) objects (ground arith))
      (ensure_created objects (create_if_not_exists o c) (ground arith)),
)
  where
    later :
        (ps : List Object)
        → All (λ p. same_name o p ≡ false) ps
        → All (IsMade (create_if_not_exists o c) (ensure objects (create_if_not_exists o c))) ps
        → All (IsMade c (ensure objects (create_if_not_exists o c))) ps
    later [] a h = tt
    later (p ∷ ps) a h = ((λ new. h.0 (unnamed_create o p c a.0 new)), later ps a.1 h.1)

-- What was added is of the list.
pub ensure-added :
    (objects : List Object) (c : Catalog) (o : Object)
    → Mem o (ensure objects c)
    → (Mem o objects) ∨₁ (Mem o c)
unfolding ensure create_if_not_exists
ensure-added [] c o m = Or.inr m
ensure-added (p ∷ objects) c o m =
    Or.elim (hlevel) (ensure-added objects (create_if_not_exists p c) o m)
      (λ k. Or.inl (mem-cons_of_mem p k))
      (λ k. elim (Bool-cases (any (same_name p) c)) [
        | inl e ↦ Or.inr (rw e at k)
        | inr e ↦
            Or.elim (hlevel) (mem-cons.0 (rw e at k)) (λ i. Or.inl (mem-cons.1 (Or.inl i)))
              (λ n. Or.inr n)
      ])

pub init_script-distinct : distinct init_script ≡ true
unfolding init_script any text_eq
init_script-distinct = refl
