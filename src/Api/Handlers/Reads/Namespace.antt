-- ===== src/Api/Handlers/Reads/Namespace.antt =====
-- A search in one namespace of the repository.
use agentenv_skills_hub.Search.Lexical.{lexical_rank}
use agentenv_skills_hub.Index.Postgres.{select_index}
use mathlib.Core.Logic.{∥∥₁_elim}
use agentenv_skills_hub.Common.{inr, arith, inl, ◌∙◌, sym, ap, Option-cases}
use agentenv_skills_hub.Api.Handlers.Reads.{
  truncate, filtered_search_index, SearchQuery, document_of,
}
use agentenv_skills_hub.Common.Order.{is_le}
use agentenv_skills_hub.Common.Sort.Laws.{sort-perm}
use agentenv_skills_hub.Common.Sort.{sort}
use agentenv_skills_hub.Index.Queries.Namespace.{own_rows_unique, own_rows}
use agentenv_skills_hub.Core.Model.{CompatibilityIndex, CompatibilitySkillHit}
use agentenv_skills_hub.Common.Text.{Text}
use agentenv_skills_hub.Common.Text.Laws.{text_rules}
use agentenv_skills_hub.Index.Postgres.WellFormed.{IsWellFormed}
use agentenv_skills_hub.Api.State.App.{PgHubRepository}
use agentenv_skills_hub.Index.Queries.{hit_cmp, hit, compatibility_index_for_namespace, Row}
use agentenv_skills_hub.Common.{true, map, ok, All, some, ◌≡◌, List}
use agentenv_skills_hub.Index.Tables.{Db}
use agentenv_skills_hub.Api.Handlers.Reads.{index_for_state_and_namespace, Server}
use mathlib.Core.List.Perm
use agentenv_skills_hub.Index.Queries.Listing.{mem_hits_iff}
use agentenv_skills_hub.Index.Queries.Served.{readable}
use mathlib.Core.List.{Mem, mem-map, Perm}
use agentenv_skills_hub.Api.Handlers.Reads.Search.{
  same_hit, Settled, documents_of_Settled, filtered_search_index-All,
}

module _ {F32 : Type 0} (server : Server F32) (db : Db)
    (arrange-perm : (rows : List Row) → Perm (server.arrange rows) rows)
    (repository : PgHubRepository) (running : server.state.repository ≡ some repository)
    (w : IsWellFormed db) (namespace : Text) where
  skills_of_namespace :
      (index : CompatibilityIndex)
      → index_for_state_and_namespace server db (some namespace) ≡ ok index
      → index.skills
        ≡ sort
            (λ a b. is_le (hit_cmp server.runtime.crates a b))
            (map (hit namespace) (server.arrange (own_rows db namespace)))
  unfolding index_for_state_and_namespace compatibility_index_for_namespace
  skills_of_namespace index h = elim (Option-cases (repository.session.fault select_index)) [
    | inl e ↦ ground (arith, running, e)
    | inr (message, e) ↦ absurd (ground (arith, running, e))
  ]

  pub index_perm :
      (index : CompatibilityIndex)
      → index_for_state_and_namespace server db (some namespace) ≡ ok index
      → Perm index.skills (map (hit namespace) (own_rows db namespace))
  index_perm index h = rw (skills_of_namespace index h) (
      Perm.trans (sort-perm (λ a b. is_le (hit_cmp server.runtime.crates a b)) _)
        (Perm.map (hit namespace) (arrange-perm (own_rows db namespace))))

  row_documents :
      (a b : CompatibilitySkillHit) (r t : Row)
      → Mem r (own_rows db namespace)
      → hit namespace r ≡ a
      → Mem t (own_rows db namespace)
      → hit namespace t ≡ b
      → same_hit a b ≡ true
      → document_of a ≡ document_of b
  row_documents a b (s, sv) (t, tv) m e n f c =
      ap document_of (sym e)
      ∙ own_rows_unique db w namespace (hlevel) (λ r. document_of (hit namespace r)) s t sv tv m n
          (ap (λ (h : CompatibilitySkillHit). h.name) e
            ∙ grind text_rules
            ∙ sym (ap (λ (h : CompatibilitySkillHit). h.name) f))
          (ap (λ (h : CompatibilitySkillHit). h.version) e
            ∙ grind text_rules
            ∙ sym (ap (λ (h : CompatibilitySkillHit). h.version) f))
      ∙ ap document_of f

  namespace-Settled :
      (index : CompatibilityIndex)
      → index_for_state_and_namespace server db (some namespace) ≡ ok index
      → Settled index.skills
  namespace-Settled index h a b m n c =
      ∥∥₁_elim (mem-map.0 ((Perm.mem_iff (index_perm index h)).0 m)) (hlevel) (λ (r, k, e).
        ∥∥₁_elim (mem-map.0 ((Perm.mem_iff (index_perm index h)).0 n)) (hlevel)
          (λ (t, l, f). row_documents a b r t k e l f c))

  -- The hit is what a reader may see of the version that it names.
  abbrev pub IsReadable : CompatibilitySkillHit → Type 0
  IsReadable h = readable namespace h.name h.version db ≡ some h

  -- A search of a namespace with a query answers with the hits of the documents that are ranked for
  -- it, in their order, cut to the limit: on well-formed tables no two hits of the namespace can be
  -- taken for one another. Each hit is what a reader may see of the version that it names, with the
  -- digest, the signature and the key of its record. The server has a repository, and its ORDER BY
  -- keeps the rows.
  pub namespace_search-documents :
      (query : SearchQuery) (search_terms : Text) (index answer : CompatibilityIndex)
      → query.q ≡ some search_terms
      → query.namespace ≡ some namespace
      → index_for_state_and_namespace server db (some namespace) ≡ ok index
      → filtered_search_index server db query ≡ ok answer
      → (map document_of answer.skills
          ≡ truncate query.limit
              (lexical_rank server.to_lowercase search_terms (map document_of index.skills)))
        × All IsReadable answer.skills
  namespace_search-documents query search_terms index answer asked own found h = (
    documents_of_Settled server db query search_terms index answer asked (rw own found)
        (namespace-Settled index found) h,
    filtered_search_index-All server db IsReadable query search_terms index answer asked
        (rw own found) h
        (λ hit m.
          (mem_hits_iff db w namespace hit).0 ((Perm.mem_iff (index_perm index found)).0 m)),
  )
