-- ===== src/Search/Lexical/Laws.antt =====
-- Which documents a search finds, and in which order.
use agentenv_skills_hub.Common.Sort.Laws.{sort-IsSorted, sort-All, sort-perm}
use agentenv_skills_hub.Common.Order.Laws.{
  is_le_total, text_cmp-IsOrder, compare-IsOrder, reversed-IsOrder, pulled-IsOrder,
  then_with-IsOrder,
}
use Prim.Native.Nat.{compare, Ordering}
use agentenv_skills_hub.Common.Sort.{sort, IsSorted}
use agentenv_skills_hub.Common.Text.Laws.{text_eq_iff}
use agentenv_skills_hub.Common.Order.{text_cmp, then_with, IsOrder, is_le}
use agentenv_skills_hub.Search.Lexical.{
  scored, ranked, rank, describes, lexical_rank, ranked_cmp, Scored, score, filter_map,
  SearchDocument,
}
use agentenv_skills_hub.Common.Text.{trim, text_eq, Text, contains, starts_with}
use agentenv_skills_hub.Common.{
  ◌∙◌, ap, inr, inl, Bool-cases, sym, ltb, is_empty, ◌≡◌, refl, ◌≢◌, Bool, true, false, List, [],
  ◌∷◌, All, map, keep, arith, ◌||◌,
}
use mathlib.Core.List.{Perm}
use mathlib.Core.List.Perm

contains-of_starts_with : (p s : Text) → starts_with p s ≡ true → contains p s ≡ true
unfolding contains
contains-of_starts_with p [] h = h
contains-of_starts_with p (c ∷ s) h = ground (arith, h)

starts_with_refl : (s : Text) → starts_with s s ≡ true
unfolding starts_with
starts_with_refl [] = refl
starts_with_refl (c ∷ s) = ground (arith, starts_with_refl s)

contains-of_eq : (p s : Text) → text_eq s p ≡ true → contains p s ≡ true
contains-of_eq p s h = rw ((text_eq_iff s p).0 h) (contains-of_starts_with p p (starts_with_refl p))

is_empty-false : (s : Text) → s ≢ [] → is_empty s ≡ false
is_empty-false [] h = absurd (h refl)
is_empty-false (c ∷ s) h = refl

module _ (to_lowercase : Text → Text) where
  -- The name or the description contains the query, letter case aside.
  abbrev pub is_match : Text → SearchDocument → Bool
  is_match query doc =
      contains query (to_lowercase doc.name) || describes to_lowercase query doc.description

  score-is_match :
      (query : Text) (doc : SearchDocument)
      → ltb 0 (score to_lowercase query doc) ≡ is_match query doc
  unfolding score
  score-is_match query doc = ground (
    arith,
    contains-of_eq query (to_lowercase doc.name),
    contains-of_starts_with query (to_lowercase doc.name),
  )

  found_documents :
      (query : Text) (docs : List SearchDocument)
      → map (λ r. r.1) (filter_map (scored to_lowercase query) docs) ≡ keep (is_match query) docs
  unfolding filter_map keep rank
  found_documents query [] = refl
  found_documents query (doc ∷ docs) =
      ground (arith, score-is_match query doc, found_documents query docs)

  -- A search with some text in the query finds every document whose name or description contains
  -- the query, letter case and surrounding space aside, each once, and no other document.
  pub lexical_rank-perm :
      (query : Text) (docs : List SearchDocument)
      → to_lowercase (trim query) ≢ []
      → Perm
          (lexical_rank to_lowercase query docs)
          (keep (is_match (to_lowercase (trim query))) docs)
  unfolding lexical_rank ranked
  lexical_rank-perm query docs some_text =
      let q = to_lowercase (trim query) in
      let found =
        Perm.map (λ (r : Scored to_lowercase). r.1)
          (sort-perm (λ a b. is_le (ranked_cmp to_lowercase a b))
            (filter_map (scored to_lowercase q) docs)) in
      rw (is_empty-false q some_text) (rw (found_documents q docs) at found)

  -- Better scores first, then by name, then by namespace, then by version.
  abbrev pub document_cmp : Text → SearchDocument → SearchDocument → Ordering
  document_cmp query a b =
      then_with (compare (score to_lowercase query b) (score to_lowercase query a)) (
        then_with (text_cmp a.name b.name)
          (then_with (text_cmp a.namespace b.namespace) (text_cmp a.version b.version)))

  ranked_cmp-scores :
      (query : Text) (a b : SearchDocument)
      → ranked_cmp to_lowercase (score to_lowercase query a, a) (score to_lowercase query b, b)
        ≡ document_cmp query a b
  unfolding ranked_cmp
  ranked_cmp-scores query a b = ground arith

  ranked_cmp-IsOrder : IsOrder (ranked_cmp to_lowercase)
  unfolding ranked_cmp
  ranked_cmp-IsOrder =
      then_with-IsOrder
        (then_with-IsOrder
          (then_with-IsOrder
            (pulled-IsOrder (λ (r : Scored to_lowercase). r.0) (reversed-IsOrder compare-IsOrder))
            (pulled-IsOrder (λ (r : Scored to_lowercase). r.1.name) text_cmp-IsOrder))
          (pulled-IsOrder (λ (r : Scored to_lowercase). r.1.namespace) text_cmp-IsOrder))
        (pulled-IsOrder (λ (r : Scored to_lowercase). r.1.version) text_cmp-IsOrder)

  -- The score of a pair is that of its document.
  abbrev HasScore : Text → Scored to_lowercase → Type 0
  HasScore query r = r.0 ≡ score to_lowercase query r.1

  scores_kept :
      (query : Text) (docs : List SearchDocument)
      → All (HasScore query) (filter_map (scored to_lowercase query) docs)
  unfolding filter_map rank
  scores_kept query [] = tt
  scores_kept query (doc ∷ docs) = elim (Bool-cases (ltb 0 (score to_lowercase query doc))) [
    | inl e ↦ rw e (refl, scores_kept query docs)
    | inr e ↦ rw e (scores_kept query docs)
  ]

  documents_below :
      (query : Text) (r : Scored to_lowercase) (rs : List (Scored to_lowercase))
      → HasScore query r
      → All (HasScore query) rs
      → All (λ s. is_le (ranked_cmp to_lowercase r s) ≡ true) rs
      → All (λ d. is_le (document_cmp query r.1 d) ≡ true) (map (λ s. s.1) rs)
  documents_below query r [] h hs b = tt
  documents_below query (k, d) ((l, e) ∷ rs) h hs b = (
    sym (ap is_le (ranked_cmp-scores query d e)) ∙ (rw (h, hs.0) at b).0,
    documents_below query (k, d) rs h hs.1 b.1,
  )

  documents-IsSorted :
      (query : Text) (rs : List (Scored to_lowercase))
      → All (HasScore query) rs
      → IsSorted (λ a b. is_le (ranked_cmp to_lowercase a b)) rs
      → IsSorted (λ a b. is_le (document_cmp query a b)) (map (λ s. s.1) rs)
  documents-IsSorted query [] h s = tt
  documents-IsSorted query (r ∷ rs) h s =
      (documents_below query r rs h.0 h.1 s.0, documents-IsSorted query rs h.1 s.1)

  -- The found documents are sorted: better scores first, then by name, namespace and version.
  pub lexical_rank-IsSorted :
      (query : Text) (docs : List SearchDocument)
      → IsSorted
          (λ a b. is_le (document_cmp (to_lowercase (trim query)) a b))
          (lexical_rank to_lowercase query docs)
  unfolding lexical_rank ranked
  lexical_rank-IsSorted query docs =
      let q = to_lowercase (trim query) in
      let le = λ (a b : Scored to_lowercase). is_le (ranked_cmp to_lowercase a b) in
      let pairs = filter_map (scored to_lowercase q) docs in
      let sorted =
        documents-IsSorted q (sort le pairs) (sort-All le (HasScore q) pairs (scores_kept q docs)) (
          sort-IsSorted le (HasScore q) (λ a b _ _. is_le_total ranked_cmp-IsOrder a b)
            (λ a b c _ _ _. ranked_cmp-IsOrder.trans a b c) pairs (scores_kept q docs)) in
      elim (Bool-cases (is_empty q)) [ inl e ↦ rw e tt | inr e ↦ rw e sorted ]

  module _ {κ} (P : SearchDocument → Type κ) where
    scored-All :
        (query : Text) (docs : List SearchDocument)
        → All P docs
        → All (λ (r : Scored to_lowercase). P r.1) (filter_map (scored to_lowercase query) docs)
    unfolding filter_map rank
    scored-All query [] h = tt
    scored-All query (doc ∷ docs) h = elim (Bool-cases (ltb 0 (score to_lowercase query doc))) [
      | inl e ↦ rw e (h.0, scored-All query docs h.1)
      | inr e ↦ rw e (scored-All query docs h.1)
    ]

    documents-All :
        (rs : List (Scored to_lowercase))
        → All (λ (r : Scored to_lowercase). P r.1) rs
        → All P (map (λ r. r.1) rs)
    documents-All [] h = tt
    documents-All (r ∷ rs) h = (h.0, documents-All rs h.1)

    -- A search finds nothing but documents that it is given.
    pub lexical_rank-All :
        (query : Text) (docs : List SearchDocument)
        → All P docs
        → All P (lexical_rank to_lowercase query docs)
    unfolding lexical_rank ranked
    lexical_rank-All query docs h =
        let q = to_lowercase (trim query) in
        let le = λ (a b : Scored to_lowercase). is_le (ranked_cmp to_lowercase a b) in
        let pairs = filter_map (scored to_lowercase q) docs in
        elim (Bool-cases (is_empty q)) [
          | inl e ↦ rw e tt
          | inr e ↦ rw e (
              documents-All (sort le pairs)
                (sort-All le (λ (r : Scored to_lowercase). P r.1) pairs (scored-All q docs h)))
        ]
