-- ===== src/Api/Handlers/Reads/Search.antt =====
-- What a search on the server answers.
use agentenv_skills_hub.Common.Find.{find-true}
use mathlib.Core.List.{Mem, mem-cons, mem-cons_of_mem}
use mathlib.Core.Logic.Or
use agentenv_skills_hub.Common.Apart.{find-mem, All-of_find, All-at_mem, Apart-unique, Apart}
use agentenv_skills_hub.Search.Lexical.Laws.{lexical_rank-All}
use agentenv_skills_hub.Common.Text.{Text, text_eq}
use agentenv_skills_hub.Index.Tables.{Db}
use agentenv_skills_hub.Common.Text.Laws.{text_rules}
use agentenv_skills_hub.Search.Lexical.{lexical_rank, SearchDocument, filter_map}
use agentenv_skills_hub.Api.Handlers.Reads.{
  index_for_state_and_namespace, SearchQuery, filtered_search_index, ranked_hits, hit_of,
  document_of, truncate, Server,
}
use agentenv_skills_hub.Core.Model.{CompatibilityIndex, CompatibilitySkillHit}
use agentenv_skills_hub.Common.{
  sym, inr, inl, Option-cases, ok, ◌&&◌, Bool, Option, ◌≡◌, refl, arith, ap, ◌∙◌, none, some, [],
  ◌∷◌, true, false, List, ℕ, take, All, map, find,
}

-- Two hits of one name and version.
abbrev pub same_hit : CompatibilitySkillHit → CompatibilitySkillHit → Bool
same_hit a b = text_eq b.name a.name && text_eq b.version a.version

same_hit_self : (a : CompatibilitySkillHit) → same_hit a a ≡ true
same_hit_self a = grind text_rules

self-apart : {b : Bool} → b ≡ false → b ≡ true → ⊥
self-apart p q = ground arith

-- Hits of one name and version describe the same document.
abbrev pub Settled : List CompatibilitySkillHit → Type 0
Settled skills =
    (a b : CompatibilitySkillHit)
    → Mem a skills
    → Mem b skills
    → same_hit a b ≡ true
    → document_of a ≡ document_of b

Apart-Settled : (skills : List CompatibilitySkillHit) → Apart same_hit skills → Settled skills
Apart-Settled skills apart a b m n c =
    Apart-unique (hlevel) document_of same_hit (λ x y t. grind text_rules) skills a b apart m n c

module _ (skills : List CompatibilitySkillHit) where
  -- The document is that of the hit that it is mapped back to.
  abbrev HasHit : SearchDocument → Type 0
  HasHit doc =
      (hit : CompatibilitySkillHit) × (hit_of skills doc ≡ some hit) × (document_of hit ≡ doc)

  hits_of_documents :
      (docs : List SearchDocument)
      → All HasHit docs
      → map document_of (filter_map (hit_of skills) docs) ≡ docs
  unfolding filter_map
  hits_of_documents [] h = refl
  hits_of_documents (doc ∷ docs) ((hit, f, e), h) = rw f (cc (e, hits_of_documents docs h))

  hit-HasHit :
      (hit : CompatibilitySkillHit) → Settled skills → Mem hit skills → HasHit (document_of hit)
  hit-HasHit hit settled m = elim (Option-cases (find (same_hit hit) skills)) [
    | inl e ↦ absurd (missing e)
    | inr (h, e) ↦ (
      h,
      e,
      sym (
          settled hit h m (find-mem (same_hit hit) skills h e) (find-true (same_hit hit) skills e)),
    )
  ]
    where
      missing : find (same_hit hit) skills ≡ none → ⊥
      missing e =
          self-apart (All-at_mem (same_hit hit) skills hit (All-of_find (same_hit hit) skills e) m)
            (same_hit_self hit)

  documents-HasHit :
      (hits : List CompatibilitySkillHit)
      → Settled skills
      → ((h : CompatibilitySkillHit) → Mem h hits → Mem h skills)
      → All HasHit (map document_of hits)
  documents-HasHit [] settled inside = tt
  documents-HasHit (hit ∷ hits) settled inside = (
    hit-HasHit hit settled (inside hit (mem-cons.1 (Or.inl refl))),
    documents-HasHit hits settled (λ h m. inside h (mem-cons_of_mem hit m)),
  )

map-truncate :
    {A B : Type 0} (f : A → B) (limit : Option ℕ) (xs : List A)
    → map f (truncate limit xs) ≡ truncate limit (map f xs)
map-truncate f none xs = refl
map-truncate {A} f (some n) xs = taken n xs
  where
    taken : (n : ℕ) (xs : List A) → map f (take n xs) ≡ take n (map f xs)
    taken ℕ.zero xs = refl
    taken (ℕ.suc n) [] = refl
    taken (ℕ.suc n) (x ∷ xs) = ap (λ ys. f x ∷ ys) (taken n xs)

module _ {ℓ} {A : Type 0} (P : A → Type ℓ) where
  filter_map-All :
      {B : Type 0} (f : B → Option A) (xs : List B)
      → ((x : B) (a : A) → f x ≡ some a → P a)
      → All P (filter_map f xs)
  unfolding filter_map
  filter_map-All f [] h = tt
  filter_map-All f (x ∷ xs) h = elim (Option-cases (f x)) [
    | inl e ↦ rw e (filter_map-All f xs h)
    | inr (a, e) ↦ rw e (h x a e, filter_map-All f xs h)
  ]

  truncate-All : (limit : Option ℕ) (xs : List A) → All P xs → All P (truncate limit xs)
  truncate-All none xs h = h
  truncate-All (some n) xs h = taken n xs h
    where
      taken : (n : ℕ) (xs : List A) → All P xs → All P (take n xs)
      taken ℕ.zero xs h = tt
      taken (ℕ.suc n) [] h = tt
      taken (ℕ.suc n) (x ∷ xs) (k, h) = (k, taken n xs h)

module _ {F32 : Type 0} (server : Server F32) (db : Db) where
  -- Where hits of one name and version describe the same document, a search answers with the hits of
  -- the ranked documents, in their order, cut to the limit.
  pub ranked_hits-documents :
      (search_terms : Text) (limit : Option ℕ) (skills : List CompatibilitySkillHit)
      → Settled skills
      → map document_of (ranked_hits server db search_terms limit skills)
        ≡ truncate limit (lexical_rank server.to_lowercase search_terms (map document_of skills))
  unfolding ranked_hits
  ranked_hits-documents search_terms limit skills settled =
      map-truncate document_of limit _
      ∙ ap (truncate limit) (
          hits_of_documents skills
            (lexical_rank server.to_lowercase search_terms (map document_of skills))
            (lexical_rank-All server.to_lowercase (HasHit skills) search_terms
              (map document_of skills) (documents-HasHit skills skills settled (λ h m. m))))

  -- What a search with a query answers.
  searched_skills :
      (query : SearchQuery) (search_terms : Text) (index answer : CompatibilityIndex)
      → query.q ≡ some search_terms
      → index_for_state_and_namespace server db query.namespace ≡ ok index
      → filtered_search_index server db query ≡ ok answer
      → answer.skills ≡ ranked_hits server db search_terms query.limit index.skills
  unfolding filtered_search_index
  searched_skills query search_terms index answer asked found h = ground arith

  -- Every hit of an answer is a hit of the index.
  pub filtered_search_index-All :
      (P : CompatibilitySkillHit → Type 0) (query : SearchQuery) (search_terms : Text)
      (index answer : CompatibilityIndex)
      → query.q ≡ some search_terms
      → index_for_state_and_namespace server db query.namespace ≡ ok index
      → filtered_search_index server db query ≡ ok answer
      → ((h : CompatibilitySkillHit) → Mem h index.skills → P h)
      → All P answer.skills
  unfolding ranked_hits
  filtered_search_index-All P query search_terms index answer asked found h inside =
      rw (searched_skills query search_terms index answer asked found h) (
        truncate-All P query.limit _ (
          filter_map-All P (hit_of index.skills)
            (lexical_rank server.to_lowercase search_terms (map document_of index.skills))
            (λ doc hit e. inside hit (
              find-mem (λ h. text_eq h.name doc.name && text_eq h.version doc.version) index.skills
                hit e))))

  pub documents_of_Settled :
      (query : SearchQuery) (search_terms : Text) (index answer : CompatibilityIndex)
      → query.q ≡ some search_terms
      → index_for_state_and_namespace server db query.namespace ≡ ok index
      → Settled index.skills
      → filtered_search_index server db query ≡ ok answer
      → map document_of answer.skills
        ≡ truncate query.limit
            (lexical_rank server.to_lowercase search_terms (map document_of index.skills))
  documents_of_Settled query search_terms index answer asked found settled h =
      ap (map document_of) (searched_skills query search_terms index answer asked found h)
      ∙ ranked_hits-documents search_terms query.limit index.skills settled

  -- A search with a query answers with the hits of the documents that are ranked for it, in their
  -- order, cut to the limit, where no two hits of the index have the same name and version.
  pub filtered_search_index-documents :
      (query : SearchQuery) (search_terms : Text) (index answer : CompatibilityIndex)
      → query.q ≡ some search_terms
      → index_for_state_and_namespace server db query.namespace ≡ ok index
      → Apart same_hit index.skills
      → filtered_search_index server db query ≡ ok answer
      → map document_of answer.skills
        ≡ truncate query.limit
            (lexical_rank server.to_lowercase search_terms (map document_of index.skills))
  filtered_search_index-documents query search_terms index answer asked found apart h =
      documents_of_Settled query search_terms index answer asked found
        (Apart-Settled index.skills apart) h
