-- ===== src/Search/Vector.antt =====
-- crates/hub-search/src/pgvector.rs, and `SearchError` of lib.rs. `F32` is the type `f32` with
-- `is_finite` and `to_string`; the rows that the query orders by their distance to a vector are
-- `ordered`, the server's ORDER BY.
pub mod Format
pub mod Similar
use agentenv_skills_hub.Common.Text.{text, Text}
use agentenv_skills_hub.Index.Tables.{SkillVersionRow, Db, SkillRow}
use agentenv_skills_hub.Core.Model.{Uuid}
use agentenv_skills_hub.Common.{
  is_empty, reject_if, ◌++◌, take, ltb, ◌+◌, map, is_some, ◌==◌, keep, find, not, Result, Bool,
  List, ℕ, Option, ok, err, none, some, [], ◌∷◌, ◌>>=◌, ◌>>◌, if◌then◌else◌,
}
use agentenv_skills_hub.Common.Int.{ℤ, pos, negsuc}
use agentenv_skills_hub.Search.Lexical.{filter_map, SearchDocument}

pub data SearchError : Type 0 where
  database : (source : Text) → SearchError
  empty_embedding : SearchError
  non_finite_embedding : (index : ℕ) → SearchError

pub record Floats : Type 1 where
  pub F32 : Type 0
  pub is_finite : F32 → Bool
  pub to_string : F32 → Text

-- A row of skill_embeddings.
pub record SkillEmbeddingRow (floats : Floats) : Type 0 where
  pub skill_id : Uuid
  pub version_id : Uuid
  pub embedding : List floats.F32

module _ (floats : Floats) where
  -- The loop of `format_query_vector`, at an index and with what has been written.
  unfoldable pub push_values : ℕ → Text → List floats.F32 → Result SearchError Text
  push_values index vector [] = ok vector
  push_values index vector (value ∷ values) =
      if not (floats.is_finite value)
      then err (non_finite_embedding index)
      else push_values (index + 1)
          ((if ltb 0 index then vector ++ text "," else vector) ++ floats.to_string value) values

  unfoldable pub format_query_vector : List floats.F32 → Result SearchError Text
  unfolding push_values
  format_query_vector embedding = do
    reject_if (is_empty embedding) empty_embedding
    vector ← push_values 0 (text "[") embedding
    ok (vector ++ text "]")

  abbrev pub EmbeddedRow : Type 0
  EmbeddedRow = SkillEmbeddingRow floats × SkillRow × SkillVersionRow

  -- skill_embeddings se JOIN skills s ON s.id = se.skill_id JOIN skill_versions sv
  -- ON sv.id = se.version_id, where ids are unique.
  abbrev pub joined :
      SkillEmbeddingRow floats → Option SkillRow → Option SkillVersionRow → Option EmbeddedRow
  joined se (some s) (some sv) = some (se, s, sv)
  joined se _ _ = none

  unfoldable pub join_embeddings : Db → List (SkillEmbeddingRow floats) → List EmbeddedRow
  unfolding filter_map find
  join_embeddings db rows =
      filter_map
        (λ se.
          joined se (find (λ s. s.id == se.skill_id) db.skills)
            (find (λ sv. sv.id == se.version_id) db.skill_versions))
        rows

  -- sv.yanked_at IS NULL
  abbrev pub is_active : EmbeddedRow → Bool
  is_active r = not (is_some r.2.yanked_at)

  abbrev pub document : EmbeddedRow → SearchDocument
  document r = record {
    namespace = r.1.namespace;
    name = r.1.name;
    version = r.2.version;
    description = r.1.description;
  }

  abbrev answered : Option Text → List SearchDocument → Result SearchError (List SearchDocument)
  answered none docs = ok docs
  answered (some source) docs = err (database source)

  module _ (ordered : Text → List EmbeddedRow → List EmbeddedRow) (fault : Option Text) (db : Db)
      (embeddings : List (SkillEmbeddingRow floats)) where
    abbrev pub active : List EmbeddedRow
    active = keep is_active (join_embeddings db embeddings)

    unfoldable pub search_rows : List floats.F32 → ℕ → Result SearchError (List SearchDocument)
    unfolding format_query_vector
    search_rows embedding limit = do
      query_vector ← format_query_vector embedding
      answered fault (map document (take limit (ordered query_vector active)))

    unfoldable pub similar : List floats.F32 → ℤ → Result SearchError (List SearchDocument)
    unfolding search_rows
    similar embedding (negsuc n) = ok []
    similar embedding (pos limit) = if limit == 0 then ok [] else search_rows embedding limit
