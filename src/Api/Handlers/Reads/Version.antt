-- ===== src/Api/Handlers/Reads/Version.antt =====
-- A version that is asked for by its namespace, its name and its version string.
use agentenv_skills_hub.Index.Queries.Listing.{readable_of_hit}
use agentenv_skills_hub.Index.Queries.Listing.{asked}
use agentenv_skills_hub.Common.Order.{is_le}
use agentenv_skills_hub.Common.Sort.{sort}
use agentenv_skills_hub.Api.Handlers.Reads.Namespace.{index_perm}
use agentenv_skills_hub.Index.Postgres.{select_index}
use agentenv_skills_hub.Index.Queries.Readable.{IsRow-of_readable}
use agentenv_skills_hub.Common.Apart.{All-of_find, All-at_mem, find-mem}
use agentenv_skills_hub.Common.Find.{false-true, find-true}
use agentenv_skills_hub.Common.Text.Laws.{text_eq_iff}
use agentenv_skills_hub.Index.Queries.Served.{readable}
use agentenv_skills_hub.Index.Queries.Namespace.{own_rows}
use agentenv_skills_hub.Index.Postgres.WellFormed.{IsWellFormed}
use agentenv_skills_hub.Api.State.App.{PgHubRepository}
use agentenv_skills_hub.Index.Queries.{hit_cmp, compatibility_index_for_namespace, Row, hit}
use agentenv_skills_hub.Api.Handlers.{ApiError}
use agentenv_skills_hub.Index.Tables.{Db}
use agentenv_skills_hub.Core.Model.{CompatibilityIndex, CompatibilitySkillHit}
use agentenv_skills_hub.Common.Text.{text, Text}
use agentenv_skills_hub.Api.Handlers.Reads.{index_for_state_and_namespace, get_version, Server}
use mathlib.Core.List.{Mem, mem-map, Perm}
use mathlib.Core.List.Perm
use agentenv_skills_hub.Common.{
  arith, ap, sym, ◌∙◌, Option-cases, find, ok_or, map, ◌≡◌, ◌++◌, List, refl, inl, inr, true, some,
  none, ok,
}

abbrev pub version_missing : Text → Text → ApiError
version_missing name version = record {
  status = 404;
  message = text "skill `" ++ (name ++ (text "` version `" ++ (version ++ text "` was not found")));
}

module _ {F32 : Type 0} (server : Server F32) (db : Db)
    (arrange-perm : (rows : List Row) → Perm (server.arrange rows) rows)
    (repository : PgHubRepository) (running : server.state.repository ≡ some repository)
    (w : IsWellFormed db) (namespace name version : Text) where
  get_version_index :
      (index : CompatibilityIndex)
      → index_for_state_and_namespace server db (some namespace) ≡ ok index
      → get_version server db namespace name version
        ≡ ok_or (version_missing name version) (find (asked name version) index.skills)
  unfolding get_version
  get_version_index index h = rw h refl

  find-readable :
      (index : CompatibilityIndex)
      → Perm index.skills (map (hit namespace) (own_rows db namespace))
      → find (asked name version) index.skills ≡ readable namespace name version db
  find-readable index p = elim (Option-cases (find (asked name version) index.skills)) [
    | inr (h, e) ↦
        e
        ∙ sym (
            readable_of_hit db w namespace name version h
              (find-true (asked name version) index.skills e)
              ((Perm.mem_iff p).0 (find-mem (asked name version) index.skills h e)))
    | inl e ↦ elim (Option-cases (readable namespace name version db)) [
      | inl f ↦ e ∙ sym f
      | inr (h, f) ↦ absurd (unlisted h f e)
    ]
  ]
    where
      unlisted :
          (h : CompatibilitySkillHit)
          → readable namespace name version db ≡ some h
          → find (asked name version) index.skills ≡ none
          → ⊥
      unlisted h f e =
          let r = IsRow-of_readable db w namespace name version h f in
          let m : Mem h index.skills =
            (Perm.mem_iff p).1 (mem-map.1 ∣ ((r.skill, r.row), r.listed, r.same) ∣₁) in
          let matches : asked name version h ≡ true = rw (← r.same) (
            ground (
              arith,
              text_eq_iff r.skill.name name,
              r.named,
              text_eq_iff r.row.version version,
              r.versioned,
            )) in
          false-true (
            sym (
              All-at_mem (asked name version) index.skills h
                (All-of_find (asked name version) index.skills e) m)
            ∙ matches)

  index_found :
      repository.session.fault select_index ≡ none
      → (index : CompatibilityIndex) × (index_for_state_and_namespace server db (some namespace)
          ≡ ok index)
  unfolding index_for_state_and_namespace compatibility_index_for_namespace
  index_found works = (
    record {
      skills =
          sort (λ a b. is_le (hit_cmp server.runtime.crates a b))
            (map (hit namespace) (server.arrange (own_rows db namespace)));
    },
    rw (running, works) refl,
  )

  -- A version is answered with what a reader may see of the record that the repository's keys stand
  -- for, and with status 404 where that is nothing: where there is no such version, or it is yanked,
  -- or its skill is not public. The server has a repository, its query does not fail, its ORDER BY
  -- keeps the rows, and the tables have their keys.
  pub get_version_lem :
      repository.session.fault select_index ≡ none
      → get_version server db namespace name version
        ≡ ok_or (version_missing name version) (readable namespace name version db)
  get_version_lem works =
      let (index, h) = index_found works in
      get_version_index index h
      ∙ ap (ok_or (version_missing name version)) (
          find-readable index
            (index_perm server db arrange-perm repository running w namespace index h))
