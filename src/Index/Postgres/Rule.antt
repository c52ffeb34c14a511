-- ===== src/Index/Postgres/Rule.antt =====
-- A rule for what publishing keeps: a property of the tables, and one of the tables inside of the
-- transaction, between the upsert and the insert.
use agentenv_skills_hub.Index.Postgres.Failures.{insert_version-err}
use agentenv_skills_hub.Index.Postgres.Upserts.{Upserted, upsert_skill-Upserted}
use agentenv_skills_hub.Common.State.{Run-cases}
use agentenv_skills_hub.Index.Postgres.Steps.{
  fresh, insert_version-Inserted, existing, NewVersion, Inserted,
}
use agentenv_skills_hub.Index.Tables.{Db}
use agentenv_skills_hub.Core.Model.{SkillVersionRecord, Uuid, PublishSkillRequest, Visibility}
use agentenv_skills_hub.Common.Text.{Text}
use agentenv_skills_hub.Index.Postgres.{skill_row, insert_version, Session}
use agentenv_skills_hub.Common.{inr, inl}

module _ (session : Session) (namespace : Text) (visibility : Visibility) (published_by : Text)
    (request : PublishSkillRequest) where
  pub record Keeps (P : Db → Type 0) (Q : Uuid → Db → Type 0) : Type 0 where
    pub upserts :
        {before after : Db} {k : Uuid}
        → Upserted (skill_row session namespace visibility request) before k after
        → P before
        → Q k after
    pub commits : (k : Uuid) (d : Db) → Q k d → P d
    pub writes :
        {before after : Db} {k : Uuid} {stored : SkillVersionRecord}
        → NewVersion session namespace request published_by k stored before after
        → Q k before
        → P after
    pub others : (d : Db) → P d → P (session.others d)
    pub others_inside : (k : Uuid) (d : Db) → Q k d → Q k (session.others d)

  module _ {P : Db → Type 0} {Q : Uuid → Db → Type 0} (keeps : Keeps P Q) where
    Inserted-kept :
        (stored : SkillVersionRecord) (before after : Db)
        → Inserted session namespace visibility published_by request stored before after
        → P before
        → P after
    Inserted-kept stored before after (existing k d u s g a) p =
        rw a (keeps.commits k d (keeps.upserts (upsert_skill-Upserted _ before d k u) p))
    Inserted-kept stored before after (fresh k d u s new) p =
        keeps.writes new
          (keeps.others_inside k d (keeps.upserts (upsert_skill-Upserted _ before d k u) p))

    pub insert_version_kept :
        (db : Db) → P db → P (insert_version session namespace visibility published_by request db).1
    insert_version_kept db p =
        elim (Run-cases (insert_version session namespace visibility published_by request db)) [
          | inl (stored, after, k) ↦ rw k (
              Inserted-kept stored db after
                (insert_version-Inserted session namespace visibility published_by request stored db
                  after k)
                p)
          | inr (e, after, k) ↦
              rw k
                (elim (insert_version-err session namespace visibility published_by request e db
                  after k) [ inl same ↦ rw same p | inr theirs ↦ rw theirs (keeps.others db p) ])
        ]
