-- ===== src/Search/Vector/Similar.antt =====
-- What a similarity search answers.
use agentenv_skills_hub.Core.Model.{OffsetDateTime}
use agentenv_skills_hub.Search.Lexical.{filter_map, SearchDocument}
use mathlib.Core.List.Perm
use agentenv_skills_hub.Index.Tables.{SkillVersionRow, SkillRow, Db}
use mathlib.Core.List.{map-append, Perm, Permᴰ}
use mathlib.Core.Logic.{∥∥₁_elim}
use agentenv_skills_hub.Common.{keep, find, ◌∙◌, min, some, none}
use agentenv_skills_hub.Common.Text.{Text}
use agentenv_skills_hub.Search.Vector.{
  is_active, join_embeddings, format_query_vector, search_rows, active, document, similar,
  SkillEmbeddingRow, EmbeddedRow, Floats,
}
use agentenv_skills_hub.Common.Int.{pos_part, ℤ, pos, negsuc}
use agentenv_skills_hub.Common.{
  Option-cases, ◌==◌, Bool-cases, Option, ◌++◌, map, length, take, List, ℕ, ◌≡◌, refl, arith, ap,
  ok, [], ◌∷◌, inl, inr, Result-cases,
}

drop : {A : Type 0} → ℕ → List A → List A
drop ℕ.zero xs = xs
drop (ℕ.suc n) [] = []
drop (ℕ.suc n) (x ∷ xs) = drop n xs

take-drop : {A : Type 0} (n : ℕ) (xs : List A) → take n xs ++ drop n xs ≡ xs
unfolding drop
take-drop ℕ.zero xs = refl
take-drop (ℕ.suc n) [] = refl
take-drop (ℕ.suc n) (x ∷ xs) = ap (λ ys. x ∷ ys) (take-drop n xs)

length-take : {A : Type 0} (n : ℕ) (xs : List A) → length (take n xs) ≡ min n (length xs)
length-take ℕ.zero xs = omega arith
length-take (ℕ.suc n) [] = omega arith
length-take (ℕ.suc n) (x ∷ xs) = omega (arith, length-take n xs)

length-Permᴰ : {A : Type 0} {xs ys : List A} → Permᴰ xs ys → length xs ≡ length ys
length-Permᴰ Permᴰ.nil = refl
length-Permᴰ (Permᴰ.cons e p) = ap ℕ.suc (length-Permᴰ p)
length-Permᴰ (Permᴰ.swap e f) = refl
length-Permᴰ (Permᴰ.trans p q) = length-Permᴰ p ∙ length-Permᴰ q

length-Perm : {A : Type 0} {xs ys : List A} → Perm xs ys → length xs ≡ length ys
length-Perm p = ∥∥₁_elim p (hlevel) (λ d. length-Permᴰ d)

length-map : {A B : Type 0} (f : A → B) (xs : List A) → length (map f xs) ≡ length xs
length-map f [] = refl
length-map f (x ∷ xs) = omega (arith, length-map f xs)

-- What an embedding stands for: a version that is there, with its skill, and has no yank mark.
module _ (floats : Floats) where
  abbrev unmarked : Option OffsetDateTime → SearchDocument → Option SearchDocument
  unmarked none doc = some doc
  unmarked (some at) doc = none

  abbrev described : Option SkillRow → Option SkillVersionRow → Option SearchDocument
  described (some s) (some sv) = unmarked sv.yanked_at (record {
    namespace = s.namespace;
    name = s.name;
    version = sv.version;
    description = s.description;
  })
  described _ _ = none

  abbrev pub embedded : Db → List (SkillEmbeddingRow floats) → List SearchDocument
  embedded db rows =
      filter_map
        (λ (e : SkillEmbeddingRow floats).
          described (find (λ (s : SkillRow). s.id == e.skill_id) db.skills)
            (find (λ (sv : SkillVersionRow). sv.id == e.version_id) db.skill_versions))
        rows

  documents_of_active :
      (db : Db) (rows : List (SkillEmbeddingRow floats))
      → map (document floats) (keep (is_active floats) (join_embeddings floats db rows))
        ≡ embedded db rows
  unfolding join_embeddings filter_map keep
  documents_of_active db [] = refl
  documents_of_active db (e ∷ rows) =
      elim (Option-cases (find (λ (s : SkillRow). s.id == e.skill_id) db.skills)) [
        | inl n ↦ rw n (documents_of_active db rows)
        | inr (s, f) ↦
            elim (Option-cases
              (find (λ (sv : SkillVersionRow). sv.id == e.version_id) db.skill_versions)) [
                | inl n ↦ rw (f, n) (documents_of_active db rows)
                | inr (sv, g) ↦ elim (Option-cases sv.yanked_at) [
                  | inl y ↦
                      rw (f, g, y)
                        (ap (λ docs. document floats (e, s, sv) ∷ docs)
                          (documents_of_active db rows))
                  | inr (at, y) ↦ rw (f, g, y) (documents_of_active db rows)
                ]
              ]
      ]

module _ (floats : Floats) (ordered : Text → List (EmbeddedRow floats) → List (EmbeddedRow floats))
    (ordered-perm : (v : Text) (rows : List (EmbeddedRow floats)) → Perm (ordered v rows) rows)
    (fault : Option Text) (db : Db) (embeddings : List (SkillEmbeddingRow floats)) where
  -- As many documents as there are, up to so many, which with others make up those of the embedded
  -- versions that are not yanked.
  abbrev pub IsBounded : ℕ → List SearchDocument → Type 0
  IsBounded limit docs =
      (length docs ≡ min limit (length (embedded floats db embeddings)))
      × (rest : List SearchDocument) × Perm (docs ++ rest) (embedded floats db embeddings)

  nothing-IsBounded : (docs : List SearchDocument) → docs ≡ [] → IsBounded 0 docs
  nothing-IsBounded docs e = rw e (omega arith, embedded floats db embeddings, Perm.refl _)

  abbrev nearest : Text → List (EmbeddedRow floats)
  nearest v = ordered v (active floats ordered fault db embeddings)

  nearest-perm :
      (v : Text) → Perm (map (document floats) (nearest v)) (embedded floats db embeddings)
  nearest-perm v =
      rw (← documents_of_active floats db embeddings)
        (Perm.map (document floats) (ordered-perm v (active floats ordered fault db embeddings)))

  rows-IsBounded :
      (limit : ℕ) (v : Text) (docs : List SearchDocument)
      → docs ≡ map (document floats) (take limit (nearest v))
      → IsBounded limit docs
  rows-IsBounded limit v docs e = rw e (
    omega (
      arith,
      length-map (document floats) (take limit (nearest v)),
      length-map (document floats) (nearest v),
      length-take limit (nearest v),
      length-Perm (nearest-perm v),
    ),
    map (document floats) (drop limit (nearest v)),
    rw
        (
          ← map-append (document floats) (take limit (nearest v)) (drop limit (nearest v)),
          take-drop limit (nearest v),
        )
        (nearest-perm v),
  )

  search_rows-IsBounded :
      (embedding : List floats.F32) (limit : ℕ) (docs : List SearchDocument)
      → search_rows floats ordered fault db embeddings embedding limit ≡ ok docs
      → IsBounded limit docs
  unfolding search_rows
  search_rows-IsBounded embedding limit docs h =
      elim (Result-cases (format_query_vector floats embedding)) [
        | inl (v, e) ↦ elim (Option-cases fault) [
          | inl f ↦ rows-IsBounded limit v docs (ground arith)
          | inr (source, f) ↦ absurd (ground arith)
        ]
        | inr (x, e) ↦ absurd (ground arith)
      ]

  -- A similarity search answers with `limit` documents, or with all that there are if these are
  -- fewer, and with none for a limit of 0 or below. What there is has one document for each embedding
  -- whose version and skill are there and whose version is not yanked, whatever the visibility of the
  -- skill; none of them is answered more often than that. The server's ORDER BY keeps the rows.
  pub similar-IsBounded :
      (embedding : List floats.F32) (limit : ℤ) (docs : List SearchDocument)
      → similar floats ordered fault db embeddings embedding limit ≡ ok docs
      → IsBounded (pos_part limit) docs
  unfolding similar
  similar-IsBounded embedding (negsuc n) docs h = nothing-IsBounded docs (cc)
  similar-IsBounded embedding (pos n) docs h = elim (Bool-cases (n == 0)) [
    | inl e ↦ let zero : n ≡ 0 = ground arith in rw zero (nothing-IsBounded docs (ground arith))
    | inr e ↦ search_rows-IsBounded embedding n docs (rw e at h)
  ]
