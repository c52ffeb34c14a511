-- ===== src/Tests/Delivery.antt =====
-- The theorems about vector search and webhooks at concrete inputs.
use agentenv_skills_hub.Search.Vector.Format.{
  format_query_vector_lem, shifted, vector_text, first_non_finite,
}
use agentenv_skills_hub.Search.Vector.Similar.{similar-IsBounded, IsBounded}
use agentenv_skills_hub.Search.Vector.{
  Floats, SkillEmbeddingRow, similar, search_rows, join_embeddings, format_query_vector,
  push_values, empty_embedding,
}
use agentenv_skills_hub.Search.Lexical.{filter_map, SearchDocument}
use agentenv_skills_hub.Webhooks.Laws.{retry_delay_lem}
use agentenv_skills_hub.Webhooks.{retry_delay}
use agentenv_skills_hub.Tests.Index.{filled_db}
use agentenv_skills_hub.Common.Int.{pos}
use agentenv_skills_hub.Common.Text.{text}
use mathlib.Core.List.Perm
use agentenv_skills_hub.Common.{
  ℕ, List, [], ◌∷◌, none, some, ok, err, ◌≡◌, refl, ltb, ◌≤◌, ◌*◌, min, find, keep, ◌+◌,
}

-- Numbers of one digit, of which 9 stands for the infinite ones.
abbrev digits : Floats
digits = record { F32 = ℕ; is_finite = λ n. ltb n 9; to_string = λ n. (48 + n) ∷ [] }

format_query_vector_lem_example :
    (format_query_vector digits [] ≡ err empty_embedding)
    × (format_query_vector digits (1 ∷ 9 ∷ [])
        ≡ shifted digits 0 (vector_text digits (1 ∷ 9 ∷ [])) (first_non_finite digits (1 ∷ 9 ∷ [])))
format_query_vector_lem_example = format_query_vector_lem digits 1 (9 ∷ [])

abbrev embeddings : List (SkillEmbeddingRow digits)
embeddings = record { skill_id = 1; version_id = 2; embedding = 1 ∷ 2 ∷ [] } ∷ []

abbrev nearest : List SearchDocument
nearest =
    record {
      namespace = text "acme";
      name = text "code-review";
      version = text "1.2.0";
      description = some (text "Review code");
    }
    ∷ []

similar_run :
    similar digits (λ v rows. rows) none filled_db embeddings (3 ∷ []) (pos 5) ≡ ok nearest
unfolding similar search_rows join_embeddings filter_map find keep format_query_vector push_values
similar_run = refl

similar-IsBounded_example :
    IsBounded digits (λ v rows. rows) (λ v rows. Perm.refl rows) none filled_db embeddings 5 nearest
similar-IsBounded_example =
    similar-IsBounded digits (λ v rows. rows) (λ v rows. Perm.refl rows) none filled_db embeddings
      (3 ∷ []) (pos 5) nearest similar_run

retry_delay_lem_example :
    (retry_delay 0 ≡ 1) × (retry_delay (3 + 1) ≡ min (2 * retry_delay 3) 64) × (retry_delay 3 ≤ 64)
retry_delay_lem_example = retry_delay_lem 3
