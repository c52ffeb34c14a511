-- ===== src/Api/Server/Served.antt =====
-- What the server answers to a reader who asks for a version that it has published.
use agentenv_skills_hub.Index.Tables.{Db}
use agentenv_skills_hub.Search.Vector
use agentenv_skills_hub.Common.Text.{Text}
use agentenv_skills_hub.Common.Text.Laws.{text_eq_iff}
use agentenv_skills_hub.Core.Model.{SkillVersionRecord, PublishSkillRequest}
use agentenv_skills_hub.Core.Service.Publish.{publish-ok}
use agentenv_skills_hub.Index.Postgres.{insert_version, select_index}
use agentenv_skills_hub.Index.Postgres.WellFormed.{IsWellFormed, insert_version-IsWellFormed}
use agentenv_skills_hub.Index.Postgres.Roundtrip.{insert_version-lookup}
use agentenv_skills_hub.Index.Queries.{Row}
use agentenv_skills_hub.Index.Queries.Served.{hit_of_record, readable, shown}
use agentenv_skills_hub.Index.Queries.Visible.{public_afterwards, is_public_skill-insert_version}
use agentenv_skills_hub.Api.State.{runtime_service}
use agentenv_skills_hub.Api.State.App.{with_repository, AppState}
use agentenv_skills_hub.Api.Handlers.{ApiError, HeaderMap}
use agentenv_skills_hub.Api.Handlers.Writes.{World, publish_version, or_public}
use agentenv_skills_hub.Api.Handlers.Writes.Guards.{read_headers, published_call}
use agentenv_skills_hub.Api.Handlers.Reads.{Server, get_version}
use agentenv_skills_hub.Api.Handlers.Reads.Version.{get_version_lem, version_missing}
use agentenv_skills_hub.Api.Server.Apart.{IsSole}
use agentenv_skills_hub.Api.Server.{
  Reply, PublishQuery, answered, for_publish_version, for_get_version, stored_version, reply,
  error_reply, hit, respond,
}
use mathlib.Core.List.{Perm}
use agentenv_skills_hub.Common.{
  refl, some, Bool, ◌≡◌, ◌∙◌, ap, sym, ℕ, Result, List, not, ◌&&◌, is_some, none, true, false, ok,
  err, ok_or, if◌then◌else◌,
}

-- A handler's answer with this reply.
answered_version :
    (x : Result ApiError (ℕ × SkillVersionRecord) × World) (stored : SkillVersionRecord)
    (world' : World)
    → answered (λ (status, stored). reply status (stored_version stored)) x
      ≡ (reply 201 (stored_version stored), world')
    → x ≡ (ok (201, stored), world')
answered_version (ok (status, s), after) stored world' h =
    let same : stored_version s ≡ stored_version stored = ap (λ (x : Reply × World). x.0.body) h in
    let code : status ≡ 201 = ap (λ (x : Reply × World). x.0.status) h in
    let left : after ≡ world' = ap (λ (x : Reply × World). x.1) h in cc
answered_version (err e, after) stored world' h =
    let same = ap (λ (x : Reply × World). x.0.body) h in absurd (cc)

module _ {F32 : Type 0} (server : Server F32) (sole : IsSole server)
    (search_text : Vector.SearchError → Text) (namespace name : Text) (query : PublishQuery)
    (headers : HeaderMap) (request : PublishSkillRequest) (stored : SkillVersionRecord)
    (world world' : World)
    (answer : respond server search_text
        (for_publish_version namespace name query headers request)
        world
      ≡ (reply 201 (stored_version stored), world')) where
  published_call_of_answer :
      publish_version server.runtime.crates
        (with_repository server.runtime
          (record { session = sole.deployed.session })
          sole.deployed.registry
          sole.deployed.allow_unsigned
          sole.deployed.store
          sole.deployed.search)
        headers
        namespace
        name
        query.visibility
        request
        world
      ≡ (ok (201, stored), world')
  unfolding respond
  published_call_of_answer =
      ap
        (λ state.
          publish_version server.runtime.crates state headers namespace name query.visibility
            request world)
        (sym sole.deployed.configured)
      ∙ answered_version _ stored world' answer

  -- The call of the repository behind a publish that is answered with 201.
  inserted_version :
      (request.manifest.name ≡ name)
      × (subject : Text) × (insert_version sole.deployed.session namespace
            (or_public query.visibility)
            subject
            request
            world.0
          ≡ (ok stored, world'.0))
  inserted_version =
      let d = sole.deployed in
      let (auth, a) =
        read_headers server.runtime d.session d.registry d.allow_unsigned d.store d.search headers
          namespace name query.visibility request world world' 201 stored
          published_call_of_answer in
      let (_, n, _, call) =
        published_call server.runtime d.session d.registry d.allow_unsigned d.store d.search headers
          namespace name query.visibility request auth world world' 201 stored a
          published_call_of_answer in
      let (subject, _, inserted, _) =
        publish-ok server.runtime.crates
          (runtime_service server.runtime d.session d.store d.allow_unsigned) auth namespace
          (or_public query.visibility) request world.0 world'.0 world.1 world'.1 stored call in
      ((text_eq_iff request.manifest.name name).0 n, subject, inserted)

  -- The reply to a reader who asks for the version.
  abbrev pub reply_to_reader : Bool → Reply
  reply_to_reader shown =
      if shown
      then reply 200 (hit (hit_of_record stored))
      else error_reply (version_missing name request.manifest.version)

  get_reply :
      (db : Db) (shown : Bool)
      → get_version server db namespace name request.manifest.version
        ≡ ok_or
            (version_missing name request.manifest.version)
            (if shown then some (hit_of_record stored) else none)
      → (respond server search_text
          (for_get_version namespace name request.manifest.version)
          (db, world'.1)).0
        ≡ reply_to_reader shown
  unfolding respond
  get_reply db true h = rw h refl
  get_reply db false h = rw h refl

  tables_kept : IsWellFormed world.0 → IsWellFormed world'.0
  tables_kept w =
      let (_, subject, inserted) = inserted_version in
      rw inserted at (
        insert_version-IsWellFormed sole.deployed.session namespace (or_public query.visibility)
          subject request world.0
          (record { keys = λ e h. rw (sole.alone e) h; skills = λ e k h. rw (sole.alone e) h }) w)

  readable_afterwards :
      IsWellFormed world.0
      → readable namespace name request.manifest.version world'.0 ≡ (
          if public_afterwards namespace name (or_public query.visibility) world.0
            && not (is_some stored.yanked_at)
          then some (hit_of_record stored)
          else none)
  readable_afterwards w =
      let session = sole.deployed.session in
      let visibility = or_public query.visibility in
      let (named, subject, inserted) = inserted_version in
      let found =
        (insert_version-lookup session namespace visibility subject request world.0 world'.0 stored
          w sole.alone inserted).0 in
      let seen =
        is_public_skill-insert_version session namespace visibility subject request world.0 world'.0
          stored sole.alone inserted in
      ap (λ n. readable namespace n request.manifest.version world'.0) (sym named)
      ∙ rw (found, seen) refl
      ∙ ap (λ n. shown (public_afterwards namespace n visibility world.0) (some stored)) named

  -- A version whose publish was answered with 201 is then served to every reader as the record that
  -- was answered, with the digest that was asked for, unless it is yanked or its skill is not public,
  -- which a new skill is by the publish and an old one as it was; else it is answered as missing. The
  -- tables have their keys, other sessions commit nothing in between, the query does not fail, and
  -- the server's ORDER BY keeps the rows.
  pub publish_served :
      ((rows : List Row) → Perm (server.arrange rows) rows)
      → IsWellFormed world.0
      → sole.deployed.session.fault select_index ≡ none
      → ((respond server search_text
            (for_get_version namespace name request.manifest.version)
            world').0
          ≡ reply_to_reader (
              public_afterwards namespace name (or_public query.visibility) world.0
              && not (is_some stored.yanked_at)))
        × (stored.digest ≡ request.artifact.digest)
  publish_served arrange-perm w works =
      let d = sole.deployed in
      let (_, subject, inserted) = inserted_version in
      (
        get_reply world'.0 _ (
            get_version_lem server world'.0 arrange-perm (record { session = d.session })
              (ap (λ (state : AppState F32). state.repository) d.configured) (tables_kept w)
              namespace name request.manifest.version works
            ∙ ap (ok_or (version_missing name request.manifest.version)) (readable_afterwards w)),
        (insert_version-lookup d.session namespace (or_public query.visibility) subject request
            world.0 world'.0 stored w sole.alone inserted).1,
      )
