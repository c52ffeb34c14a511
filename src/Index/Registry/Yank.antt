-- ===== src/Index/Registry/Yank.antt =====
-- Yanking and unyanking, as changes of the registry that the tables stand for.
use agentenv_skills_hub.Index.Registry.Rows.{rows_written}
use agentenv_skills_hub.Index.Postgres.Yank.{marked}
use agentenv_skills_hub.Index.Registry.Marks.{view-set_yank}
use agentenv_skills_hub.Index.Postgres.{
  unyank_version, yank_version, update_yank, Session, found_rows,
}
use agentenv_skills_hub.Core.Error.{skill_version_not_found, HubResult}
use agentenv_skills_hub.Index.Postgres.WellFormed.{found_rows-state, IsWellFormed}
use agentenv_skills_hub.Core.Model.{OffsetDateTime}
use agentenv_skills_hub.Index.Tables.{set_yank, Db}
use agentenv_skills_hub.Common.Text.{Text}
use mathlib.Core.Option
use mathlib.Core.Option.{Option}
use agentenv_skills_hub.Index.Registry.{Registry, view, update}
use agentenv_skills_hub.Common.{
  is_some, ◌==◌, if◌then◌else◌, ℕ, ◌≡◌, ok, err, none, some, arith, ◌∙◌, ap,
}

found_rows-answer :
    (namespace name version : Text) (x : ℕ × Db)
    → (found_rows namespace name version x).0
      ≡ (if x.0 == 0 then err (skill_version_not_found namespace name version) else ok tt)
found_rows-answer namespace name version (rows, db) = ground arith

-- A version that is there gets the mark, and any other is not found.
pub record Marks (namespace name version : Text) (at : Option OffsetDateTime) (reason : Option Text)
    (before : Registry) (answer : HubResult Unit) (after : Registry) : Type 0 where
  pub answered : answer ≡ (
      if is_some (before namespace name version)
      then ok tt
      else err (skill_version_not_found namespace name version))
  pub changed :
      after
      ≡ update namespace name version
          (Option.map (marked at reason) (before namespace name version))
          before

module _ (namespace name version : Text) (db : Db) (w : IsWellFormed db) where
  abbrev updated : Option OffsetDateTime → Option Text → HubResult Unit × Db
  updated at reason =
      found_rows namespace name version (set_yank at reason namespace name version db)

  updated-Marks :
      (at : Option OffsetDateTime) (reason : Option Text)
      → Marks namespace name version at reason
          (view db)
          (updated at reason).0
          (view (updated at reason).1)
  updated-Marks at reason = record {
    answered =
        found_rows-answer namespace name version (set_yank at reason namespace name version db)
        ∙ rw (rows_written db w at reason namespace name version) (ground arith);
    changed =
        ap view
          (found_rows-state namespace name version (set_yank at reason namespace name version db))
        ∙ view-set_yank db w at reason namespace name version;
  }

  module _ (session : Session) (works : session.fault update_yank ≡ none) where
    -- Yanking marks the version with the time and the reason, and unyanking takes the mark away, if
    -- the version is there, and each answers that it is not found if it is not; no other entry of
    -- the registry changes. The update does not fail, and the tables have their keys.
    pub yank-Marks :
        (reason : Text)
        → Marks namespace name version
            (some session.now)
            (some reason)
            (view db)
            (yank_version session namespace name version reason db).0
            (view (yank_version session namespace name version reason db).1)
          × Marks namespace name version none none
              (view db)
              (unyank_version session namespace name version db).0
              (view (unyank_version session namespace name version db).1)
    unfolding yank_version unyank_version
    yank-Marks reason = (
      rw works (updated-Marks (some session.now) (some reason)),
      rw works (updated-Marks none none),
    )
