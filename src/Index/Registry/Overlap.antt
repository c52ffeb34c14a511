-- ===== src/Index/Registry/Overlap.antt =====
-- Calls of many sessions, where others commit inside of a publish.
use agentenv_skills_hub.Index.Registry.History.{yank, unyank, apply, apply-IsKept, IsKept}
use agentenv_skills_hub.Index.Postgres.Publishing.{Upserted-Found, NewVersion-Found}
use agentenv_skills_hub.Index.Postgres.Lookup.{Found-of_lookup, lookup_of_Found}
use agentenv_skills_hub.Index.Postgres.Rule.{insert_version_kept}
use agentenv_skills_hub.Common.Apart.{any-map}
use agentenv_skills_hub.Index.Postgres.Steps.{raced, written, NewVersion}
use agentenv_skills_hub.Index.Postgres.WellFormed.{
  yank-IsWellFormed, Upserted-IsWellFormed, IsWellFormed, NewVersion-IsWellFormed, has_skill,
}
use agentenv_skills_hub.Index.Postgres.Upserts.{
  insert_skill_version-written, insert_skill_version-raced, added, there, Upserted,
}
use agentenv_skills_hub.Common.Text.{Text}
use agentenv_skills_hub.Core.Model.{SkillVersionRecord, Visibility, PublishSkillRequest, Uuid}
use agentenv_skills_hub.Index.Tables.{set_yank, SkillRow, Db, update_latest}
use agentenv_skills_hub.Index.Postgres.{insert_version, unyank_version, Session, yank_version}
use agentenv_skills_hub.Common.{[], List, ap, ◌∙◌, ◌==◌, true, arith, ◌≡◌, any}

-- What the calls of all sessions do to the tables. Between the lookup and the insert of a publish,
-- the calls of other sessions commit, and others inside of those.
pub data Reaches : Db → Db → Type 0 where
  stays : {before after : Db} → after ≡ before → Reaches before after
  then_ :
      {before between after : Db}
      → Reaches before between
      → Reaches between after
      → Reaches before after
  publishes :
      (session : Session) (namespace : Text) (visibility : Visibility) (published_by : Text)
      (request : PublishSkillRequest) {before after : Db}
      → ((d : Db) → Reaches d (session.others d))
      → after ≡ (insert_version session namespace visibility published_by request before).1
      → Reaches before after
  yanks :
      (session : Session) (namespace name version reason : Text) {before after : Db}
      → after ≡ (yank_version session namespace name version reason before).1
      → Reaches before after
  unyanks :
      (session : Session) (namespace name version : Text) {before after : Db}
      → after ≡ (unyank_version session namespace name version before).1
      → Reaches before after

Upserted-has_skill :
    {row : SkillRow} {db after : Db} {k : Uuid} (j : Uuid)
    → Upserted row db k after
    → has_skill j db ≡ true
    → has_skill j after ≡ true
unfolding any
Upserted-has_skill j (there s e i a) h = rw a h
Upserted-has_skill j (added e u i a) h = rw a (ground (arith, h))

NewVersion-has_skill :
    {session : Session} {namespace : Text} {request : PublishSkillRequest} {published_by : Text}
    {k : Uuid} {stored : SkillVersionRecord} {before after : Db} (j : Uuid)
    → NewVersion session namespace request published_by k stored before after
    → has_skill j before ≡ true
    → has_skill j after ≡ true
unfolding update_latest
NewVersion-has_skill {before = before} j (written db i s a) h = rw a (
    any-map (λ (s : SkillRow). s.id == j) (λ (s : SkillRow). s.id == j) _ db.skills
      (λ s. ground arith)
    ∙ ap (has_skill j) (insert_skill_version-written _ before db i).1
    ∙ h)
NewVersion-has_skill {before = before} j (raced db i s d a) h =
    rw (a, (insert_skill_version-raced _ before db i).0) h

yank_skills :
    (session : Session) (namespace name version reason : Text) (db : Db)
    → ((yank_version session namespace name version reason db).1.skills ≡ db.skills)
      × ((unyank_version session namespace name version db).1.skills ≡ db.skills)
unfolding yank_version unyank_version set_yank
yank_skills session namespace name version reason db = ground arith

-- No call deletes a skill.
Reaches-has_skill :
    {before after : Db} (j : Uuid)
    → Reaches before after
    → has_skill j before ≡ true
    → has_skill j after ≡ true
Reaches-has_skill j (stays e) h = rw e h
Reaches-has_skill j (then_ a b) h = Reaches-has_skill j b (Reaches-has_skill j a h)
Reaches-has_skill {before} j (publishes session namespace visibility published_by request others e)
      h =
    rw e (
      insert_version_kept session namespace visibility published_by request
        {P = λ d. has_skill j d ≡ true} {Q = λ k d. has_skill j d ≡ true}
        (record {
          upserts = λ u g. Upserted-has_skill j u g;
          commits = λ k d g. g;
          writes = λ new g. NewVersion-has_skill j new g;
          others = λ d g. Reaches-has_skill j (others d) g;
          others_inside = λ k d g. Reaches-has_skill j (others d) g;
        })
        before h)
Reaches-has_skill {before} j (yanks session namespace name version reason e) h = rw e (
    ap (λ (skills : List SkillRow). any (λ s. s.id == j) skills)
      (yank_skills session namespace name version reason before).0
    ∙ h)
Reaches-has_skill {before} j (unyanks session namespace name version e) h = rw e (
    ap (λ (skills : List SkillRow). any (λ s. s.id == j) skills)
      (yank_skills session namespace name version [] before).1
    ∙ h)

module _ (namespace name version : Text) (r : SkillVersionRecord) where
  -- The tables have their keys, and hold the version.
  abbrev pub Holds : Db → Type 0
  Holds db = IsWellFormed db × IsKept namespace name version r db

  Upserted-Holds :
      {row : SkillRow} {before after : Db} {k : Uuid}
      → Upserted row before k after
      → Holds before
      → Holds after × (has_skill k after ≡ true)
  Upserted-Holds u (w, (at, reason, h)) =
      let (v, owned) = Upserted-IsWellFormed u w in
      ((v, (at, reason, lookup_of_Found (Upserted-Found u (Found-of_lookup h)))), owned)

  NewVersion-Holds :
      {session : Session} {n : Text} {request : PublishSkillRequest} {published_by : Text}
      {k : Uuid} {stored : SkillVersionRecord} {before after : Db}
      → NewVersion session n request published_by k stored before after
      → has_skill k before ≡ true
      → Holds before
      → Holds after
  NewVersion-Holds new owned (w, (at, reason, h)) = (
    NewVersion-IsWellFormed new owned w,
    (at, reason, lookup_of_Found (NewVersion-Found new (Found-of_lookup h))),
  )

  -- A published version is never lost and never replaced, however the calls of all sessions
  -- overlap: whatever they publish, yank and unyank, also inside of one another's publishes, and
  -- with whatever outcome, the tables keep their keys, and its record is found with nothing changed
  -- but the yank mark.
  pub Reaches-Holds : {before after : Db} → Reaches before after → Holds before → Holds after
  unfolding apply
  Reaches-Holds (stays e) h = rw e h
  Reaches-Holds (then_ a b) h = Reaches-Holds b (Reaches-Holds a h)
  Reaches-Holds {before} (publishes session n visibility published_by request others e) h = rw e (
      insert_version_kept session n visibility published_by request {P = Holds}
        {Q = λ k d. Holds d × (has_skill k d ≡ true)}
        (record {
          upserts = λ u g. Upserted-Holds u g;
          commits = λ k d g. g.0;
          writes = λ new g. NewVersion-Holds new g.1 g.0;
          others = λ d g. Reaches-Holds (others d) g;
          others_inside =
              λ k d g. (Reaches-Holds (others d) g.0, Reaches-has_skill k (others d) g.1);
        })
        before h)
  Reaches-Holds {before} (yanks session n m v reason e) (w, k) = rw e (
    (yank-IsWellFormed session n m v reason before w).0,
    apply-IsKept namespace name version r (yank session n m v reason) before tt w k,
  )
  Reaches-Holds {before} (unyanks session n m v e) (w, k) = rw e (
    (yank-IsWellFormed session n m v [] before w).1,
    apply-IsKept namespace name version r (unyank session n m v) before tt w k,
  )
