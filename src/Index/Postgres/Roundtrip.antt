-- ===== src/Index/Postgres/Roundtrip.antt =====
-- What is found after a publish.
use agentenv_skills_hub.Index.Postgres.Upserts.{
  Upserted, added, insert_skill_version-raced, insert_skill_version-written, there,
  upsert_skill-Upserted,
}
use agentenv_skills_hub.Common.Find.{find-true, find_first}
use agentenv_skills_hub.Core.Model.{Uuid, Visibility, PublishSkillRequest, SkillVersionRecord}
use agentenv_skills_hub.Common.Text.{Text, text_eq}
use agentenv_skills_hub.Core.Error.{version_digest_conflict}
use agentenv_skills_hub.Index.Json.{get_text-manifest_value}
use agentenv_skills_hub.Index.Postgres.Steps.{
  insert_version-Inserted, existing, fresh, written, raced, Inserted, NewVersion,
}
use agentenv_skills_hub.Index.Postgres.Lookup.{
  select_of_Found, Found-of_lookup, Found-update_latest, lookup_of_Found, Found, lookup_version,
}
use agentenv_skills_hub.Index.Tables.{
  SkillRow, Db, select_skill_version, insert_skill_version, upsert_skill, is_version, joined_record,
  is_skill,
}
use agentenv_skills_hub.Index.Postgres.WellFormed.{find-id, IsWellFormed}
use agentenv_skills_hub.Common.{
  err, if◌then◌else◌, none, ◌==◌, true, ◌≡◌, refl, some, ok, ap, find, arith,
}
use agentenv_skills_hub.Common.Text.Laws.{text_eq_iff, text_eq_refl}
use agentenv_skills_hub.Index.Postgres.{
  commit, lookup, upsert, Statement, new_record, version_row, insert_version, skill_row, Session,
}

-- The skill that an upsert returns is the only row of its name and of its id.
pub record IsPlaced (row : SkillRow) (k : Uuid) (db : Db) : Type 0 where
  pub skill : SkillRow
  pub named : find (is_skill row.namespace row.name) db.skills ≡ some skill
  pub same_id : skill.id ≡ k
  pub by_id : find (λ (t : SkillRow). t.id == k) db.skills ≡ some skill

pub Upserted-IsPlaced :
    {row : SkillRow} {db after : Db} {k : Uuid}
    → IsWellFormed db
    → Upserted row db k after
    → IsPlaced row k after
Upserted-IsPlaced {row} {db} w (there s e i j) =
    rw (j, i)
      (record {
        skill = s;
        named = e;
        same_id = refl;
        by_id = find-id (is_skill row.namespace row.name) db.skills s w.skill_ids e;
      })
Upserted-IsPlaced {row} {db} w (added e u i j) =
    rw (j, i)
      (record {
        skill = row;
        named =
            find_first (is_skill row.namespace row.name) row db.skills
              (ground (arith, text_eq_refl row.namespace, text_eq_refl row.name));
        same_id = refl;
        by_id = find_first (λ (t : SkillRow). t.id == row.id) row db.skills (ground arith);
      })

module _ (session : Session) (namespace : Text) (visibility : Visibility) (published_by : Text)
    (request : PublishSkillRequest) where
  pub new_row_record :
      (s : SkillRow)
      → is_skill namespace request.manifest.name s ≡ true
      → (k : Uuid)
      → joined_record s (version_row session k published_by request)
        ≡ new_record session namespace request
  new_row_record s h k = ground (
    arith,
    text_eq_iff s.namespace namespace,
    text_eq_iff s.name request.manifest.name,
    get_text-manifest_value request.manifest,
  )

  Found-written :
      (k : Uuid) (db after : Db)
      → IsPlaced (skill_row session namespace visibility request) k db
      → insert_skill_version (version_row session k published_by request) db ≡ some (true, after)
      → Found namespace request.manifest.name request.manifest.version after
          (new_record session namespace request)
  Found-written k db after p h =
      let (_, e, _) =
        insert_skill_version-written (version_row session k published_by request) db after h in
      rw e (record {
        skill = p.skill;
        row = version_row session k published_by request;
        owner = p.skill;
        named = p.named;
        versioned =
            find_first (is_version p.skill.id request.manifest.version)
              (version_row session k published_by request) db.skill_versions
              (ground (arith, p.same_id, text_eq_refl request.manifest.version));
        owned = p.by_id;
        joined =
            new_row_record p.skill
              (find-true (is_skill namespace request.manifest.name) db.skills p.named) k;
      })

  lookup_placed :
      (k : Uuid) (db : Db) {r : SkillVersionRecord}
      → IsPlaced (skill_row session namespace visibility request) k db
      → select_skill_version k request.manifest.version db ≡ some r
      → lookup_version namespace request.manifest.name request.manifest.version db ≡ some r
  unfolding lookup_version
  lookup_placed k db p h = rw p.named (rw p.same_id h)

  -- A successful publish stores the version: it is found under its namespace, name and version, as
  -- the record that was returned, with the digest that was asked for. The tables have their keys, and
  -- other sessions commit nothing in between.
  pub insert_version-lookup :
      (db after : Db) (stored : SkillVersionRecord)
      → IsWellFormed db
      → ((d : Db) → session.others d ≡ d)
      → insert_version session namespace visibility published_by request db ≡ (ok stored, after)
      → (lookup_version namespace request.manifest.name request.manifest.version after
          ≡ some stored)
        × (stored.digest ≡ request.artifact.digest)
  insert_version-lookup db after stored w quiet h =
      stored_lookup (
        insert_version-Inserted session namespace visibility published_by request stored db after h)
    where
      new_lookup :
          (k : Uuid) (d : Db)
          → IsPlaced (skill_row session namespace visibility request) k d
          → NewVersion session namespace request published_by k stored d after
          → (lookup_version namespace request.manifest.name request.manifest.version after
              ≡ some stored)
            × (stored.digest ≡ request.artifact.digest)
      new_lookup k d p (written d' i s a) = (
        rw (a, s)
            (lookup_of_Found (
              Found-update_latest request.manifest.version session.now k d'
                (Found-written k d d' p i))),
        ap (λ r. r.digest) s,
      )
      new_lookup k d p (raced d' i s g a) =
          let e =
            (insert_skill_version-raced (version_row session k published_by request) d d' i).0 in
          (rw (a, e) (lookup_placed k d p (rw e at s)), g)

      stored_lookup :
          Inserted session namespace visibility published_by request stored db after
          → (lookup_version namespace request.manifest.name request.manifest.version after
              ≡ some stored)
            × (stored.digest ≡ request.artifact.digest)
      stored_lookup (existing k d u s g a) =
          (rw a (lookup_placed k d (Upserted-IsPlaced w (upsert_skill-Upserted _ db d k u)) s), g)
      stored_lookup (fresh k d u s new) =
          new_lookup k d (Upserted-IsPlaced w (upsert_skill-Upserted _ db d k u))
            (rw (quiet d) at new)

module _ (session : Session) (namespace : Text) (visibility : Visibility) (published_by : Text)
    (request : PublishSkillRequest) where
  existing_steps :
      (db : Db) (s : SkillRow) (r : SkillVersionRecord)
      → find (is_skill namespace request.manifest.name) db.skills ≡ some s
      → select_skill_version s.id request.manifest.version db ≡ some r
      → ((statement : Statement) → session.fault statement ≡ none)
      → insert_version session namespace visibility published_by request db ≡ (
        (if text_eq r.digest request.artifact.digest
            then ok r
            else err
                (version_digest_conflict namespace request.manifest.name request.manifest.version)),
        db,
      )
  unfolding insert_version upsert_skill
  existing_steps db s r e f calm =
      ground (arith, calm Statement.begin, calm upsert, calm lookup, calm commit)

  -- Publishing a version that is there changes nothing: it returns the stored record if the digest is
  -- the same, whatever else the request says, and reports a conflict if not. No statement fails.
  pub insert_version-existing :
      (db : Db) (r : SkillVersionRecord)
      → lookup_version namespace request.manifest.name request.manifest.version db ≡ some r
      → ((statement : Statement) → session.fault statement ≡ none)
      → insert_version session namespace visibility published_by request db ≡ (
        (if text_eq r.digest request.artifact.digest
            then ok r
            else err
                (version_digest_conflict namespace request.manifest.name request.manifest.version)),
        db,
      )
  insert_version-existing db r l calm =
      let f = Found-of_lookup l in existing_steps db f.skill r f.named (select_of_Found f) calm
