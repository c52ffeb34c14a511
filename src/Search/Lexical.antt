-- ===== src/Search/Lexical.antt =====
-- crates/hub-search/src/lexical.rs, and `SearchDocument` of lib.rs. `to_lowercase` is the mapping of
-- texts by the tables of Unicode.
pub mod Laws
use Prim.Native.Nat.{compare, Ordering}
use agentenv_skills_hub.Common.Order.{then_with, is_le, text_cmp}
use agentenv_skills_hub.Common.Sort.{sort}
use agentenv_skills_hub.Common.Text.{starts_with, text_eq, contains, trim, Text}
use agentenv_skills_hub.Common.{
  false, ℕ, Bool, Option, none, some, List, [], ◌∷◌, map, ltb, if◌then◌else◌, is_empty,
}

pub record SearchDocument : Type 0 where
  pub namespace : Text
  pub name : Text
  pub version : Text
  pub description : Option Text

abbrev pub prepend {ℓ} : {A : Type ℓ} → Option A → List A → List A
prepend none xs = xs
prepend (some x) xs = x ∷ xs

unfoldable pub filter_map {ℓ} : {A B : Type ℓ} → (A → Option B) → List A → List B
filter_map f [] = []
filter_map f (x ∷ xs) = prepend (f x) (filter_map f xs)

module _ (to_lowercase : Text → Text) where
  abbrev pub describes : Text → Option Text → Bool
  describes query none = false
  describes query (some description) = contains query (to_lowercase description)

  -- The chain of tests of `rank`.
  unfoldable pub score : Text → SearchDocument → ℕ
  unfolding contains
  score query doc =
      let name = to_lowercase doc.name in
      if text_eq name query
      then 4
      else if starts_with query name
      then 3
      else if contains query name
      then 2
      else if describes query doc.description
      then 1
      else 0

  unfoldable pub rank : Text → SearchDocument → Option ℕ
  unfolding score
  rank query doc = if ltb 0 (score query doc) then some (score query doc) else none

  abbrev pub Scored : Type 0
  Scored = ℕ × SearchDocument

  abbrev with_score : SearchDocument → Option ℕ → Option Scored
  with_score doc none = none
  with_score doc (some s) = some (s, doc)

  abbrev pub scored : Text → SearchDocument → Option Scored
  scored query doc = with_score doc (rank query doc)

  -- The comparator of the sort: the higher score first.
  unfoldable pub ranked_cmp : Scored → Scored → Ordering
  unfolding text_cmp
  ranked_cmp left right =
      then_with
        (then_with (then_with (compare right.0 left.0) (text_cmp left.1.name right.1.name))
          (text_cmp left.1.namespace right.1.namespace))
        (text_cmp left.1.version right.1.version)

  unfoldable pub ranked : Text → List SearchDocument → List Scored
  unfolding filter_map rank sort ranked_cmp
  ranked query docs = sort (λ a b. is_le (ranked_cmp a b)) (filter_map (scored query) docs)

  unfoldable pub lexical_rank : Text → List SearchDocument → List SearchDocument
  unfolding trim ranked
  lexical_rank query docs =
      let query = to_lowercase (trim query) in
      if is_empty query then [] else map (λ r. r.1) (ranked query docs)
