-- ===== src/Index/Postgres/Publishing.antt =====
-- What publishing does to the versions that are there, and to the one that it publishes.
use agentenv_skills_hub.Index.Postgres.Rule.{insert_version_kept}
use agentenv_skills_hub.Index.Postgres.Upserts.{
  added, there, insert_skill_version-raced, Upserted, insert_skill_version-written,
}
use agentenv_skills_hub.Common.{◌≡◌, some}
use agentenv_skills_hub.Common.Text.{Text}
use agentenv_skills_hub.Core.Model.{Uuid, Visibility, PublishSkillRequest, SkillVersionRecord}
use agentenv_skills_hub.Index.Tables.{SkillRow, Db}
use agentenv_skills_hub.Index.Postgres.{Session, insert_version}
use agentenv_skills_hub.Index.Postgres.Lookup.{
  Found, Found-of_lookup, lookup_of_Found, lookup_version, Found-new_skill, Found-new_version,
  Found-update_latest,
}
use agentenv_skills_hub.Index.Postgres.Steps.{NewVersion, written, raced}

module _ {namespace' name' version' : Text} {r : SkillVersionRecord} where
  pub Upserted-Found :
      {row : SkillRow} {db after : Db} {skill_id : Uuid}
      → Upserted row db skill_id after
      → Found namespace' name' version' db r
      → Found namespace' name' version' after r
  Upserted-Found (there s e i j) f = rw j f
  Upserted-Found {row} {db} (added e u i j) f = rw j (Found-new_skill row db u e f)

  pub NewVersion-Found :
      {session : Session} {namespace : Text} {request : PublishSkillRequest} {published_by : Text}
      {skill_id : Uuid} {stored : SkillVersionRecord} {before after : Db}
      → NewVersion session namespace request published_by skill_id stored before after
      → Found namespace' name' version' before r
      → Found namespace' name' version' after r
  NewVersion-Found {session} {request = request} {skill_id = skill_id} {before = before}
        (written db i s a) f =
      let (n, e, _) = insert_skill_version-written _ before db i in
      rw a (
        Found-update_latest request.manifest.version session.now skill_id db
          (rw e (Found-new_version _ before n f)))
  NewVersion-Found {before = before} (raced db i s d a) f =
      rw (a, (insert_skill_version-raced _ before db i).0) f

-- Publishing changes no version that is there, its own included, whether it succeeds or fails, if
-- what other sessions commit in between does not.
pub insert_version-keeps :
    (namespace' name' version' : Text) (r : SkillVersionRecord) (session : Session)
    (namespace : Text) (visibility : Visibility) (published_by : Text)
    (request : PublishSkillRequest) (db : Db)
    → ((d : Db)
        → lookup_version namespace' name' version' d ≡ some r
        → lookup_version namespace' name' version' (session.others d) ≡ some r)
    → lookup_version namespace' name' version' db ≡ some r
    → lookup_version namespace' name' version'
        (insert_version session namespace visibility published_by request db).1
      ≡ some r
insert_version-keeps n m v r session namespace visibility published_by request db others l =
    insert_version_kept session namespace visibility published_by request
      {P = λ d. lookup_version n m v d ≡ some r} {Q = λ k d. lookup_version n m v d ≡ some r}
      (record {
        upserts = λ u h. lookup_of_Found (Upserted-Found u (Found-of_lookup h));
        commits = λ k d h. h;
        writes = λ new h. lookup_of_Found (NewVersion-Found new (Found-of_lookup h));
        others = others;
        others_inside = λ k d h. others d h;
      })
      db l
