-- ===== src/Index/Postgres/Upserts.antt =====
-- What the upsert of the skill and the insert of the version do to the tables.
use agentenv_skills_hub.Common.{
  ◌≡◌, ◌≢◌, inl, inr, refl, arith, true, false, Option, none, some, ◌∷◌, find, any, Bool-cases,
  ◌==◌,
}
use agentenv_skills_hub.Core.Model.{Uuid}
use agentenv_skills_hub.Index.Tables.{
  SkillRow, SkillVersionRow, Db, is_skill, is_version, upsert_skill, upserted, insert_skill_version,
}

-- The skill was there, or its row is new.
pub data Upserted (row : SkillRow) (db : Db) (skill_id : Uuid) (after : Db) : Type 0 where
  there :
      (s : SkillRow)
      → find (is_skill row.namespace row.name) db.skills ≡ some s
      → skill_id ≡ s.id
      → after ≡ db
      → Upserted row db skill_id after
  added :
      find (is_skill row.namespace row.name) db.skills ≡ none
      → any (λ t. t.id == row.id) db.skills ≡ false
      → skill_id ≡ row.id
      → after ≡ record db { skills = row ∷ db.skills }
      → Upserted row db skill_id after

upserted-Upserted :
    (row : SkillRow) (db after : Db) (skill_id : Uuid) (o : Option SkillRow)
    → find (is_skill row.namespace row.name) db.skills ≡ o
    → upserted row o db ≡ some (skill_id, after)
    → Upserted row db skill_id after
upserted-Upserted row db after skill_id (some s) e h = there s e (ground arith) (ground arith)
upserted-Upserted row db after skill_id none e h =
    elim (Bool-cases (any (λ (t : SkillRow). t.id == row.id) db.skills)) [
      | inl used ↦ absurd (ground (arith, used))
      | inr unused ↦ added e unused (ground (arith, unused)) (ground (arith, unused))
    ]

pub upsert_skill-Upserted :
    (row : SkillRow) (db after : Db) (skill_id : Uuid)
    → upsert_skill row db ≡ some (skill_id, after)
    → Upserted row db skill_id after
unfolding upsert_skill
upsert_skill-Upserted row db after skill_id h =
    upserted-Upserted row db after skill_id (find (is_skill row.namespace row.name) db.skills) refl
      h

pub insert_skill_version-written :
    (row : SkillVersionRow) (db after : Db)
    → insert_skill_version row db ≡ some (true, after)
    → (find (is_version row.skill_id row.version) db.skill_versions ≡ none)
      × (after ≡ record db { skill_versions = row ∷ db.skill_versions })
      × (any (λ sv. sv.id == row.id) db.skill_versions ≡ false)
unfolding insert_skill_version
insert_skill_version-written row db after h = (ground arith, ground arith, ground arith)

pub insert_skill_version-raced :
    (row : SkillVersionRow) (db after : Db)
    → insert_skill_version row db ≡ some (false, after)
    → (after ≡ db) × (find (is_version row.skill_id row.version) db.skill_versions ≢ none)
unfolding insert_skill_version
insert_skill_version-raced row db after h = (ground arith, λ e. ground arith)
