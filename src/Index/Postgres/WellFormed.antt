-- ===== src/Index/Postgres/WellFormed.antt =====
-- The keys of the tables, as migrations/0001_init.sql declares them, and that every operation of the
-- repository keeps them.
use agentenv_skills_hub.Index.Postgres.Rule.{insert_version_kept}
use agentenv_skills_hub.Index.Postgres.Upserts.{
  Upserted, added, insert_skill_version-raced, insert_skill_version-written, there,
}
use agentenv_skills_hub.Common.Apart.{
  any-map, All-keep, All-map_same, All-of_find, All_at_find, Apart, Apart-map, All-of_any,
}
use agentenv_skills_hub.Index.Postgres.Steps.{raced, written, NewVersion}
use agentenv_skills_hub.Index.Postgres.{
  update_yank, found_rows, version_row, insert_version, unyank_version, yank_version, Session,
}
use agentenv_skills_hub.Common.Text.{Text}
use agentenv_skills_hub.Core.Model.{
  SkillVersionRecord, PublishSkillRequest, Visibility, Uuid, OffsetDateTime,
}
use agentenv_skills_hub.Common.{
  ℕ, Option-cases, Option, ◌≡◌, inl, inr, arith, ◌∙◌, Bool, true, false, none, some, List, [], ◌∷◌,
  find, any, All, Bool-cases, ◌==◌,
}
use agentenv_skills_hub.Index.Tables.{
  insert_skill_version, SkillVersionRow, update_latest, set_yank, SkillRow, Db, is_skill,
  is_version,
}

-- Primary keys, UNIQUE (namespace, name), UNIQUE (skill_id, version), and the reference to skills.
pub record IsWellFormed (db : Db) : Type 0 where
  pub skill_ids : Apart (λ s t. t.id == s.id) db.skills
  pub skill_names : Apart (λ s t. is_skill s.namespace s.name t) db.skills
  pub version_ids : Apart (λ s t. t.id == s.id) db.skill_versions
  pub version_keys : Apart (λ s t. is_version s.skill_id s.version t) db.skill_versions
  pub references : All (λ sv. any (λ s. s.id == sv.skill_id) db.skills ≡ true) db.skill_versions

-- In a table without clashes of ids, the row that is found has its id to itself.
pub find-id :
    (p : SkillRow → Bool) (xs : List SkillRow) (s : SkillRow)
    → Apart (λ s t. t.id == s.id) xs
    → find p xs ≡ some s
    → find (λ (t : SkillRow). t.id == s.id) xs ≡ some s
unfolding find
find-id p [] s h e = cc
find-id p (x ∷ xs) s h e = elim (Bool-cases (p x)) [
  | inl t ↦ ground (arith, t)
  | inr f ↦
      let e' = rw f at e in
      let other = All_at_find (λ (y : SkillRow). (y.id == x.id) ≡ false) p xs s h.0 e' in
      ground (arith, find-id p xs s h.1 e', other)
]

abbrev pub has_skill : Uuid → Db → Bool
has_skill k db = any (λ s. s.id == k) db.skills

has_found :
    (p : SkillRow → Bool) (xs : List SkillRow) (s : SkillRow)
    → find p xs ≡ some s
    → any (λ t. t.id == s.id) xs ≡ true
unfolding find any
has_found p [] s e = cc
has_found p (x ∷ xs) s e = elim (Bool-cases (p x)) [
  | inl t ↦ ground (arith, t)
  | inr f ↦ ground (arith, has_found p xs s (rw f at e))
]

pub Upserted-IsWellFormed :
    {row : SkillRow} {db after : Db} {k : Uuid}
    → Upserted row db k after
    → IsWellFormed db
    → IsWellFormed after × (has_skill k after ≡ true)
unfolding any
Upserted-IsWellFormed {row} {db} (there s e i j) w =
    rw (j, i) (w, has_found (is_skill row.namespace row.name) db.skills s e)
Upserted-IsWellFormed {row} {db} (added e u i j) w =
    rw (j, i)
      (
        record {
          skill_ids = (All-of_any (λ (t : SkillRow). t.id == row.id) db.skills u, w.skill_ids);
          skill_names = (All-of_find (is_skill row.namespace row.name) db.skills e, w.skill_names);
          version_ids = w.version_ids;
          version_keys = w.version_keys;
          references = All-keep _ _ db.skill_versions (λ sv h. ground (arith, h)) w.references;
        },
        ground arith,
      )

written-IsWellFormed :
    (row : SkillVersionRow) (db after : Db)
    → insert_skill_version row db ≡ some (true, after)
    → has_skill row.skill_id db ≡ true
    → IsWellFormed db
    → IsWellFormed after
written-IsWellFormed row db after h owned w =
    let (n, e, u) = insert_skill_version-written row db after h in
    rw e (record {
      skill_ids = w.skill_ids;
      skill_names = w.skill_names;
      version_ids =
          (All-of_any (λ (t : SkillVersionRow). t.id == row.id) db.skill_versions u, w.version_ids);
      version_keys =
          (All-of_find (is_version row.skill_id row.version) db.skill_versions n, w.version_keys);
      references = (owned, w.references);
    })

update_latest-IsWellFormed :
    (latest : Text) (now : OffsetDateTime) (k : Uuid) (db : Db)
    → IsWellFormed db
    → IsWellFormed (update_latest latest now k db)
unfolding update_latest
update_latest-IsWellFormed latest now k db w = record {
  skill_ids = Apart-map _ _ db.skills (λ x y. ground arith) w.skill_ids;
  skill_names = Apart-map _ _ db.skills (λ x y. ground arith) w.skill_names;
  version_ids = w.version_ids;
  version_keys = w.version_keys;
  references =
      All-keep _ _ db.skill_versions
        (λ sv h.
          any-map (λ (s : SkillRow). s.id == sv.skill_id) (λ (s : SkillRow). s.id == sv.skill_id) _
            db.skills (λ s. ground arith)
          ∙ h)
        w.references;
}

set_yank-IsWellFormed :
    (at : Option OffsetDateTime) (reason : Option Text) (namespace name version : Text) (db : Db)
    → IsWellFormed db
    → IsWellFormed (set_yank at reason namespace name version db).1
unfolding set_yank
set_yank-IsWellFormed at reason namespace name version db w = record {
  skill_ids = w.skill_ids;
  skill_names = w.skill_names;
  version_ids = Apart-map _ _ db.skill_versions (λ x y. ground arith) w.version_ids;
  version_keys = Apart-map _ _ db.skill_versions (λ x y. ground arith) w.version_keys;
  references = All-map_same _ _ _ db.skill_versions (λ sv h. ground (arith, h)) w.references;
}

-- What other sessions commit keeps the keys and deletes no skill.
pub record IsOrderly (session : Session) : Type 0 where
  pub keys : (d : Db) → IsWellFormed d → IsWellFormed (session.others d)
  pub skills : (d : Db) (k : Uuid) → has_skill k d ≡ true → has_skill k (session.others d) ≡ true

pub NewVersion-IsWellFormed :
    {session : Session} {namespace : Text} {request : PublishSkillRequest} {published_by : Text}
    {k : Uuid} {stored : SkillVersionRecord} {before after : Db}
    → NewVersion session namespace request published_by k stored before after
    → has_skill k before ≡ true
    → IsWellFormed before
    → IsWellFormed after
NewVersion-IsWellFormed {session} {request = request} {published_by = published_by} {k}
      {before = before} (written db i s a) owned w =
    rw a (
      update_latest-IsWellFormed request.manifest.version session.now k db
        (written-IsWellFormed (version_row session k published_by request) before db i owned w))
NewVersion-IsWellFormed {before = before} (raced db i s d a) owned w =
    rw (a, (insert_skill_version-raced _ before db i).0) w

-- Publishing keeps the keys of the tables, whatever its outcome.
pub insert_version-IsWellFormed :
    (session : Session) (namespace : Text) (visibility : Visibility) (published_by : Text)
    (request : PublishSkillRequest) (db : Db)
    → IsOrderly session
    → IsWellFormed db
    → IsWellFormed (insert_version session namespace visibility published_by request db).1
insert_version-IsWellFormed session namespace visibility published_by request db orderly w =
    insert_version_kept session namespace visibility published_by request {P = IsWellFormed}
      {Q = λ k d. IsWellFormed d × (has_skill k d ≡ true)}
      (record {
        upserts = λ u h. Upserted-IsWellFormed u h;
        commits = λ k d h. h.0;
        writes = λ new h. NewVersion-IsWellFormed new h.1 h.0;
        others = orderly.keys;
        others_inside = λ k d h. (orderly.keys d h.0, orderly.skills d k h.1);
      })
      db w

pub found_rows-state :
    (namespace name version : Text) (x : ℕ × Db) → (found_rows namespace name version x).1 ≡ x.1
found_rows-state namespace name version (rows, db) = ground arith

-- Yanking and unyanking keep the keys of the tables, whatever their outcome.
pub yank-IsWellFormed :
    (session : Session) (namespace name version reason : Text) (db : Db)
    → IsWellFormed db
    → IsWellFormed (yank_version session namespace name version reason db).1
      × IsWellFormed (unyank_version session namespace name version db).1
unfolding yank_version unyank_version
yank-IsWellFormed session namespace name version reason db w =
    elim (Option-cases (session.fault update_yank)) [
      | inl e ↦ rw e (
        rw
            (found_rows-state namespace name version
              (set_yank (some session.now) (some reason) namespace name version db))
            (set_yank-IsWellFormed (some session.now) (some reason) namespace name version db w),
        rw (found_rows-state namespace name version (set_yank none none namespace name version db))
            (set_yank-IsWellFormed none none namespace name version db w),
      )
      | inr k ↦ rw k.1 (w, w)
    ]
