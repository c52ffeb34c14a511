-- ===== src/Search/Vector/Format.antt =====
-- The text of a query vector.
use mathlib.Core.List.{append_assoc, append-nil}
use agentenv_skills_hub.Common.Text.{text, Text}
use agentenv_skills_hub.Search.Vector.{
  empty_embedding, format_query_vector, non_finite_embedding, SearchError, push_values, Floats,
}
use mathlib.Core.Option
use mathlib.Core.Option.{Option}
use agentenv_skills_hub.Common.{
  true, ltb, ◌<◌, Result, ◌+◌, ◌++◌, List, ◌≡◌, ◌>>=◌, refl, arith, ap, ◌∙◌, sym, none, some, ok,
  err, [], ◌∷◌, inl, inr, Bool-cases, if◌then◌else◌, ℕ,
}

module _ (floats : Floats) where
  -- Where the first value stands that is not finite.
  unfoldable pub first_non_finite : List floats.F32 → Option ℕ
  first_non_finite [] = none
  first_non_finite (value ∷ values) =
      if floats.is_finite value then Option.map (λ i. i + 1) (first_non_finite values) else some 0

  -- The values with a comma before each.
  unfoldable pub listed : List floats.F32 → Text
  listed [] = []
  listed (value ∷ values) = b',' ∷ (floats.to_string value ++ listed values)

  abbrev pub vector_text : List floats.F32 → Text
  vector_text [] = text "[]"
  vector_text (value ∷ values) = b'[' ∷ ((floats.to_string value ++ listed values) ++ text "]")

  abbrev pub shifted : ℕ → Text → Option ℕ → Result SearchError Text
  shifted index written none = ok written
  shifted index written (some i) = err (non_finite_embedding (index + i))

  push_values-listed :
      (index : ℕ) (vector : Text) (values : List floats.F32)
      → 0 < index
      → push_values floats index vector values
        ≡ shifted index (vector ++ listed values) (first_non_finite values)
  unfolding push_values first_non_finite listed
  push_values-listed index vector [] h = ap ok (sym (append-nil vector))
  push_values-listed index vector (value ∷ values) h = elim (Bool-cases (floats.is_finite value)) [
    | inr e ↦ rw e (ap (λ (i : ℕ). err (non_finite_embedding i)) (omega arith))
    | inl e ↦
        rw (e, positive)
          (push_values-listed (index + 1) ((vector ++ b',' ∷ []) ++ floats.to_string value) values
              (omega arith)
            ∙ moved (first_non_finite values))
  ]
    where
      positive : ltb 0 index ≡ true
      positive = ground arith

      moved :
          (o : Option ℕ)
          → shifted
              (index + 1)
              (((vector ++ b',' ∷ []) ++ floats.to_string value) ++ listed values)
              o
            ≡ shifted index
                (vector ++ b',' ∷ (floats.to_string value ++ listed values))
                (Option.map (λ i. i + 1) o)
      moved none = ap ok (simp append_assoc)
      moved (some i) = ap (λ (j : ℕ). err (non_finite_embedding j)) (omega arith)

  -- The query vector is the values in brackets with commas between them. No values, and values of
  -- which one is not finite, are refused, the latter with the place of the first such value.
  pub format_query_vector_lem :
      (value : floats.F32) (values : List floats.F32)
      → (format_query_vector floats [] ≡ err empty_embedding)
        × (format_query_vector floats (value ∷ values)
            ≡ shifted 0 (vector_text (value ∷ values)) (first_non_finite (value ∷ values)))
  unfolding format_query_vector first_non_finite
  format_query_vector_lem value values = (
    refl,
    elim (Bool-cases (floats.is_finite value)) [
      | inr e ↦ rw e refl
      | inl e ↦
          rw (e, push_values-listed 1 (b'[' ∷ floats.to_string value) values (omega arith))
            (closed (first_non_finite values))
    ],
  )
    where
      closed :
          (o : Option ℕ)
          → (shifted 1 ((b'[' ∷ floats.to_string value) ++ listed values) o
              >>= (λ vector. ok (vector ++ text "]")))
            ≡ shifted 0 (vector_text (value ∷ values)) (Option.map (λ i. i + 1) o)
      closed none = refl
      closed (some i) = ap (λ (j : ℕ). err (non_finite_embedding j)) (omega arith)
