-- ===== src/Index/Postgres/Steps.antt =====
-- The ways in which `insert_version` succeeds, and that a failure is rolled back.
use agentenv_skills_hub.Common.{
  Result, ◌∙◌, ap, ◌≡◌, inl, inr, arith, true, false, none, some, ok, err, Bool-cases, Option-cases,
}
use agentenv_skills_hub.Common.Text.{Text}
use agentenv_skills_hub.Common.Text.Laws.{text_eq_iff}
use agentenv_skills_hub.Core.Error.{HubError}
use agentenv_skills_hub.Core.Model.{Uuid, Visibility, PublishSkillRequest, SkillVersionRecord}
use agentenv_skills_hub.Index.Tables.{
  Db, upsert_skill, select_skill_version, insert_skill_version, update_latest,
}
use agentenv_skills_hub.Index.Postgres.{
  Session, Tx, insert_new, insert_version, close, skill_row, version_row, new_record,
}

module _ (session : Session) (namespace : Text) (request : PublishSkillRequest) where
  -- A row was written, or another session has committed one of the same digest.
  pub data NewVersion (published_by : Text) (skill_id : Uuid) (stored : SkillVersionRecord)
      (before after : Db) : Type 0 where
    written :
        (db : Db)
        → insert_skill_version (version_row session skill_id published_by request) before
          ≡ some (true, db)
        → stored ≡ new_record session namespace request
        → after ≡ update_latest request.manifest.version session.now skill_id db
        → NewVersion published_by skill_id stored before after
    raced :
        (db : Db)
        → insert_skill_version (version_row session skill_id published_by request) before
          ≡ some (false, db)
        → select_skill_version skill_id request.manifest.version db ≡ some stored
        → stored.digest ≡ request.artifact.digest
        → after ≡ db
        → NewVersion published_by skill_id stored before after

  module _ (published_by : Text) (skill_id : Uuid) (stored : SkillVersionRecord) (tx tx' : Tx)
      (h : insert_new session namespace published_by request skill_id tx ≡ (ok stored, tx')) where
    after_raced :
        (db : Db)
        → insert_skill_version
            (version_row session skill_id published_by request)
            (session.others tx.view)
          ≡ some (false, db)
        → (select_skill_version skill_id request.manifest.version db ≡ some stored)
          × (stored.digest ≡ request.artifact.digest)
          × (tx'.view ≡ db)
    unfolding insert_new
    after_raced db e =
        elim (Option-cases (select_skill_version skill_id request.manifest.version db)) [
          | inl missing ↦ absurd (ground (arith, missing))
          | inr k ↦ (
            ground (arith, k.1),
            ground (arith, k.1, text_eq_iff k.0.digest request.artifact.digest),
            ground (arith, k.1),
          )
        ]

    after_written :
        (db : Db)
        → insert_skill_version
            (version_row session skill_id published_by request)
            (session.others tx.view)
          ≡ some (true, db)
        → (stored ≡ new_record session namespace request)
          × (tx'.view ≡ update_latest request.manifest.version session.now skill_id db)
    unfolding insert_new
    after_written db e = (ground arith, ground arith)

    insert_new-ok : NewVersion published_by skill_id stored (session.others tx.view) tx'.view
    unfolding insert_new
    insert_new-ok =
        elim (Option-cases (
          insert_skill_version (version_row session skill_id published_by request)
            (session.others tx.view))) [
              | inl failed ↦ absurd (ground (arith, failed))
              | inr k ↦ elim (Bool-cases k.0.0) [
                | inl t ↦
                    let e = k.1 ∙ ap (λ b. some (b, k.0.1)) t in
                    let (i, j) = after_written k.0.1 e in written k.0.1 e i j
                | inr f ↦
                    let e = k.1 ∙ ap (λ b. some (b, k.0.1)) f in
                    let (i, j, l) = after_raced k.0.1 e in raced k.0.1 e i j l
              ]
            ]

close-eq-ok :
    (x : Result HubError SkillVersionRecord × Tx) {stored : SkillVersionRecord} {after : Db}
    → close x ≡ (ok stored, after)
    → (tx : Tx) × (x ≡ (ok stored, tx)) × (tx.view ≡ after)
close-eq-ok (ok kept, tx) h = (tx, cc, cc)
close-eq-ok (err e, tx) h = cc

module _ (session : Session) (namespace : Text) (visibility : Visibility) (published_by : Text)
    (request : PublishSkillRequest) where
  -- What a successful call has done: the version was there with the same digest, or it is new.
  pub data Inserted (stored : SkillVersionRecord) (before after : Db) : Type 0 where
    existing :
        (skill_id : Uuid) (db : Db)
        → upsert_skill (skill_row session namespace visibility request) before ≡ some (skill_id, db)
        → select_skill_version skill_id request.manifest.version db ≡ some stored
        → stored.digest ≡ request.artifact.digest
        → after ≡ db
        → Inserted stored before after
    fresh :
        (skill_id : Uuid) (db : Db)
        → upsert_skill (skill_row session namespace visibility request) before ≡ some (skill_id, db)
        → select_skill_version skill_id request.manifest.version db ≡ none
        → NewVersion session namespace request published_by skill_id stored
            (session.others db)
            after
        → Inserted stored before after

  module _ (stored : SkillVersionRecord) (before after : Db)
      (h : insert_version session namespace visibility published_by request before
        ≡ (ok stored, after)) where
    no_skill : upsert_skill (skill_row session namespace visibility request) before ≡ none → ⊥
    unfolding insert_version
    no_skill u = ground arith

    at_existing :
        (skill_id : Uuid) (db : Db) (kept : SkillVersionRecord)
        → upsert_skill (skill_row session namespace visibility request) before ≡ some (skill_id, db)
        → select_skill_version skill_id request.manifest.version db ≡ some kept
        → (kept ≡ stored) × (after ≡ db) × (stored.digest ≡ request.artifact.digest)
    unfolding insert_version
    at_existing skill_id db kept u s = (
      ground arith,
      ground arith,
      ground (arith, text_eq_iff kept.digest request.artifact.digest),
    )

    at_fresh :
        (skill_id : Uuid) (db : Db)
        → upsert_skill (skill_row session namespace visibility request) before ≡ some (skill_id, db)
        → select_skill_version skill_id request.manifest.version db ≡ none
        → close (
            insert_new session namespace published_by request skill_id
              (record { view = db; shared = before }))
          ≡ (ok stored, after)
    unfolding insert_version
    at_fresh skill_id db u s = ground arith

    pub insert_version-Inserted : Inserted stored before after
    insert_version-Inserted =
        elim (Option-cases (upsert_skill (skill_row session namespace visibility request) before)) [
          | inl failed ↦ absurd (no_skill failed)
          | inr k ↦
              elim (Option-cases (select_skill_version k.0.0 request.manifest.version k.0.1)) [
                | inl s ↦
                    let (tx, e, v) = close-eq-ok _ (at_fresh k.0.0 k.0.1 k.1 s) in
                    fresh k.0.0 k.0.1 k.1 s (
                      rw (← v) (
                        insert_new-ok session namespace request published_by k.0.0 stored
                          (record { view = k.0.1; shared = before }) tx e))
                | inr kept ↦
                    let (i, j, l) = at_existing k.0.0 k.0.1 kept.0 k.1 kept.1 in
                    existing k.0.0 k.0.1 k.1 (kept.1 ∙ ap some i) l j
              ]
        ]
