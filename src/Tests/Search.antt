-- ===== src/Tests/Search.antt =====
-- The theorems about hub-search at concrete documents.
use agentenv_skills_hub.Search.Lexical.Laws.{
  lexical_rank-IsSorted, lexical_rank-perm, is_match, document_cmp,
}
use agentenv_skills_hub.Common.Order.{is_le}
use mathlib.Core.List.{Perm}
use agentenv_skills_hub.Common.Text.{
  is_whitespace, trim_end, text, trim_start, to_ascii_lowercase, Text, trim,
}
use agentenv_skills_hub.Search.Lexical.{lexical_rank, SearchDocument}
use agentenv_skills_hub.Common.Sort.{IsSorted}
use agentenv_skills_hub.Common.{◌≢◌, [], ◌∷◌, List, map, keep, none, some}

abbrev lowercase : Text → Text
lowercase s = map to_ascii_lowercase s

abbrev documents : List SearchDocument
documents =
    record {
      namespace = text "acme";
      name = text "lint";
      version = text "1.0.0";
      description = some (text "Code style");
    }
    ∷ record {
      namespace = text "acme";
      name = text "tests";
      version = text "1.0.0";
      description = none;
    }
    ∷ record {
      namespace = text "acme";
      name = text "Code";
      version = text "2.0.0";
      description = none;
    }
    ∷ []

code_query : lowercase (trim (text " CODE ")) ≢ []
unfolding trim trim_start trim_end is_whitespace to_ascii_lowercase
code_query h = cc

lexical_rank-perm_example :
    Perm
      (lexical_rank lowercase (text " CODE ") documents)
      (keep (is_match lowercase (lowercase (trim (text " CODE ")))) documents)
lexical_rank-perm_example = lexical_rank-perm lowercase (text " CODE ") documents code_query

lexical_rank-IsSorted_example :
    IsSorted
      (λ a b. is_le (document_cmp lowercase (lowercase (trim (text "code"))) a b))
      (lexical_rank lowercase (text "code") documents)
lexical_rank-IsSorted_example = lexical_rank-IsSorted lowercase (text "code") documents
