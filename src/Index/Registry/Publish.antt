-- ===== src/Index/Registry/Publish.antt =====
-- `insert_version` implements `Publishes`.
use agentenv_skills_hub.Index.Postgres.Failures.{
  err_of_existing, err_of_new, err_of_no_skill, insert_version-err,
}
use agentenv_skills_hub.Index.Postgres.Upserts.{
  Upserted, added, insert_skill_version-raced, insert_skill_version-written, there,
  upsert_skill-Upserted,
}
use agentenv_skills_hub.Common.Apart.{All_at_find}
use agentenv_skills_hub.Common.Find.{found_of_any, find-true, none-some}
use agentenv_skills_hub.Common.Text.Laws.{text_rules}
use agentenv_skills_hub.Common.State.{Run-cases}
use agentenv_skills_hub.Core.Error.{HubError}
use agentenv_skills_hub.Index.Registry.Views.{view-update_latest, view-new_version, view-new_skill}
use agentenv_skills_hub.Index.Postgres.Roundtrip.{Upserted-IsPlaced, new_row_record, IsPlaced}
use agentenv_skills_hub.Index.Postgres.Lookup.{lookup_version}
use agentenv_skills_hub.Index.Postgres.WellFormed.{Upserted-IsWellFormed, IsWellFormed}
use agentenv_skills_hub.Core.Model.{SkillVersionRecord, PublishSkillRequest, Visibility, Uuid}
use agentenv_skills_hub.Common.Text.{Text}
use agentenv_skills_hub.Index.Tables.{
  upsert_skill, joined_record, is_skill, insert_skill_version, SkillVersionRow, is_version, Db,
  select_skill_version, SkillRow,
}
use agentenv_skills_hub.Index.Postgres.{insert_version, new_record, version_row, skill_row, Session}
use agentenv_skills_hub.Common.{
  ◌==◌, any, find, ◌≡◌, refl, ap, sym, ◌∙◌, inl, inr, true, none, some, ok, err, Option-cases,
}
use agentenv_skills_hub.Index.Registry.{Publishes, created, kept, refused, failed, view, update}
use agentenv_skills_hub.Index.Postgres.Steps.{
  insert_version-Inserted, NewVersion, Inserted, existing, fresh, written, raced,
}
use mathlib.Core.Path.{fun_ext}

pub Upserted-view :
    {row : SkillRow} {db after : Db} {k : Uuid}
    → IsWellFormed db
    → Upserted row db k after
    → (n m v : Text) → view after n m v ≡ view db n m v
Upserted-view w (there s e i j) n m v = rw j refl
Upserted-view {row} {db} w (added e u i j) n m v = rw j (view-new_skill db w row u n m v e)

-- A version that the tables do not show has no row.
pub versioned_of_row :
    (k : Uuid) (version : Text) (db : Db)
    → IsWellFormed db
    → select_skill_version k version db ≡ none
    → find (is_version k version) db.skill_versions ≡ none
unfolding select_skill_version
versioned_of_row k version db w h =
    elim (Option-cases (find (is_version k version) db.skill_versions)) [
      | inl e ↦ e
      | inr (sv, e) ↦
          let owned =
            All_at_find (λ (sv : SkillVersionRow). any (λ s. s.id == sv.skill_id) db.skills ≡ true)
              (is_version k version) db.skill_versions sv w.references e in
          let (o, f) = found_of_any (λ (s : SkillRow). s.id == sv.skill_id) db.skills owned in
          absurd (none-some (joined_record o sv) (sym (rw (e, f) at h)))
    ]

module _ (session : Session) (namespace : Text) (visibility : Visibility) (published_by : Text)
    (request : PublishSkillRequest) where
  -- The entry of the request in the tables after the upsert.
  pub placed_entry :
      (k : Uuid) (db : Db)
      → IsPlaced (skill_row session namespace visibility request) k db
      → view db namespace request.manifest.name request.manifest.version
        ≡ select_skill_version k request.manifest.version db
  unfolding lookup_version
  placed_entry k db p = rw p.named (rw p.same_id refl)

  written-view :
      (k : Uuid) (db db' : Db)
      → IsWellFormed db
      → IsPlaced (skill_row session namespace visibility request) k db
      → insert_skill_version (version_row session k published_by request) db ≡ some (true, db')
      → (n m v : Text)
      → view db' n m v
        ≡ update namespace request.manifest.name request.manifest.version
            (some (new_record session namespace request))
            (view db)
            n
            m
            v
  written-view k db db' w p h n m v =
      let row = version_row session k published_by request in
      let (_, e, _) = insert_skill_version-written row db db' h in
      rw
        (
          e,
          ← new_row_record session namespace visibility published_by request p.skill
              (find-true (is_skill namespace request.manifest.name) db.skills p.named) k,
        )
        (view-new_version row db p.skill namespace request.manifest.name w p.named p.by_id n m v)

  inserted-Publishes :
      (db after : Db) (stored : SkillVersionRecord)
      → IsWellFormed db
      → ((d : Db) → session.others d ≡ d)
      → Inserted session namespace visibility published_by request stored db after
      → Publishes session namespace request (view db) (ok stored) (view after)
  inserted-Publishes db after stored w quiet (existing k d u s g a) =
      let up = upsert_skill-Upserted _ db d k u in
      let same = fun_ext λ n. fun_ext λ m. fun_ext λ v. Upserted-view w up n m v in
      kept stored
        (sym (Upserted-view w up namespace request.manifest.name request.manifest.version)
          ∙ placed_entry k d (Upserted-IsPlaced w up)
          ∙ s)
        g refl (rw a same)
  inserted-Publishes db after stored w quiet (fresh k d u s new) = new_entry (rw (quiet d) at new)
    where
      new_entry :
          NewVersion session namespace request published_by k stored d after
          → Publishes session namespace request (view db) (ok stored) (view after)
      new_entry (written d' i e a) =
          let up = upsert_skill-Upserted _ db d k u in
          let p = Upserted-IsPlaced w up in
          let wd = (Upserted-IsWellFormed up w).0 in
          created
            (sym (Upserted-view w up namespace request.manifest.name request.manifest.version)
              ∙ placed_entry k d p
              ∙ s)
            (ap ok e)
            (fun_ext λ n. fun_ext λ m. fun_ext λ v.
              ap (λ (t : Db). view t n m v) a
              ∙ view-update_latest request.manifest.version session.now k d' n m v
              ∙ written-view k d d' wd p i n m v
              ∙ updated_entry (Upserted-view w up) n m v)
        where
          updated_entry :
              ((n m v : Text) → view d n m v ≡ view db n m v)
              → (n m v : Text)
              → update namespace request.manifest.name request.manifest.version
                  (some (new_record session namespace request))
                  (view d)
                  n
                  m
                  v
                ≡ update namespace request.manifest.name request.manifest.version
                    (some (new_record session namespace request))
                    (view db)
                    n
                    m
                    v
          updated_entry same n m v = rw (same n m v) refl
      new_entry (raced d' i e g a) =
          let up = upsert_skill-Upserted _ db d k u in
          let wd = (Upserted-IsWellFormed up w).0 in
          absurd (
            (insert_skill_version-raced (version_row session k published_by request) d d' i).1
              (versioned_of_row k request.manifest.version d wd s))

  failed-Publishes :
      (db after : Db) (e : HubError)
      → IsWellFormed db
      → ((d : Db) → session.others d ≡ d)
      → insert_version session namespace visibility published_by request db ≡ (err e, after)
      → Publishes session namespace request (view db) (err e) (view after)
  failed-Publishes db after e w quiet h =
      let same : after ≡ db =
        elim (insert_version-err session namespace visibility published_by request e db after h) [
          | inl a ↦ a
          | inr a ↦ a ∙ quiet db
        ] in
      elim (Option-cases (upsert_skill (skill_row session namespace visibility request) db)) [
        | inl u ↦
            failed e
              (err_of_no_skill session namespace visibility published_by request e db after h u)
              refl (rw same refl)
        | inr ((k, d), u) ↦
            let up = upsert_skill-Upserted _ db d k u in
            elim (Option-cases (select_skill_version k request.manifest.version d)) [
              | inl s ↦
                  failed e
                    (err_of_new session namespace visibility published_by request e db after h k d u
                      s
                      (λ raced i.
                        (insert_skill_version-raced (version_row session k published_by request) d
                            raced (rw (quiet d) at i)).1
                          (versioned_of_row k request.manifest.version d
                            (Upserted-IsWellFormed up w).0 s)))
                    refl (rw same refl)
              | inr (r, s) ↦
                  elim (err_of_existing session namespace visibility published_by request e db after
                    h k d r u s) [
                      | inl b ↦ failed e b refl (rw same refl)
                      | inr (c, g) ↦
                          refused r
                            (sym (
                                Upserted-view w up namespace request.manifest.name
                                  request.manifest.version)
                              ∙ placed_entry k d (Upserted-IsPlaced w up)
                              ∙ s)
                            (λ eq. grind text_rules) (ap err c) (rw same refl)
                    ]
            ]
      ]

  -- Publishing, whatever its outcome, does to the registry that the tables stand for what
  -- `Publishes` says: it creates the version where there is none, returns the stored record where
  -- the digest is the same, refuses another digest, or fails in the database; every other entry,
  -- and on the last three outcomes every entry, stays. The tables have their keys, and other
  -- sessions commit nothing in between.
  pub insert_version-Publishes :
      (db : Db)
      → IsWellFormed db
      → ((d : Db) → session.others d ≡ d)
      → Publishes session namespace request
          (view db)
          (insert_version session namespace visibility published_by request db).0
          (view (insert_version session namespace visibility published_by request db).1)
  insert_version-Publishes db w quiet =
      elim (Run-cases (insert_version session namespace visibility published_by request db)) [
        | inl (stored, after, k) ↦ rw k (
            inserted-Publishes db after stored w quiet (
              insert_version-Inserted session namespace visibility published_by request stored db
                after k))
        | inr (e, after, k) ↦ rw k (failed-Publishes db after e w quiet k)
      ]
