-- ===== src/Tests/Registry.antt =====
-- The theorems about the registry of hub-index at concrete tables and calls.
use agentenv_skills_hub.Index.Tables.{Db}
use agentenv_skills_hub.Index.Registry.{view, Publishes}
use agentenv_skills_hub.Index.Registry.Publish.{insert_version-Publishes}
use agentenv_skills_hub.Index.Registry.Overlap.{publishes, yanks, Holds, Reaches-Holds}
use agentenv_skills_hub.Index.Registry.Race.{IsRaced, settled, insert_version-race}
use agentenv_skills_hub.Index.Registry.Yank.{Marks, yank-Marks}
use agentenv_skills_hub.Index.Queries.{public_version_by_name}
use agentenv_skills_hub.Index.Postgres.{
  skill_row, Session, yank_version, unyank_version, insert_version,
}
use agentenv_skills_hub.Tests.Index.{
  calm_session, empty_db, empty_db-IsWellFormed, filled_db, filled_db-IsWellFormed, first_record,
  lookup_run, index_code,
}
use agentenv_skills_hub.Tests.Fixtures.{crates, request}
use agentenv_skills_hub.Core.Model.{PublishSkillRequest, public, private}
use agentenv_skills_hub.Common.Text.{text}
use agentenv_skills_hub.Common.{[], ◌∷◌, none, some, ok, ◌≡◌, refl}

insert_version-Publishes_example :
    Publishes calm_session
      (text "acme")
      request
      (view empty_db)
      (insert_version calm_session (text "acme") public (text "ann") request empty_db).0
      (view (insert_version calm_session (text "acme") public (text "ann") request empty_db).1)
insert_version-Publishes_example =
    insert_version-Publishes calm_session (text "acme") public (text "ann") request empty_db
      empty_db-IsWellFormed (λ d. refl)

yank-Marks_example :
    Marks
      (text "acme")
      (text "code-review")
      (text "1.2.0")
      (some 7)
      (some (text "bug"))
      (view filled_db)
      (yank_version calm_session
        (text "acme")
        (text "code-review")
        (text "1.2.0")
        (text "bug")
        filled_db).0
      (view
        (yank_version calm_session
          (text "acme")
          (text "code-review")
          (text "1.2.0")
          (text "bug")
          filled_db).1)
    × Marks
        (text "acme")
        (text "code-review")
        (text "1.2.0")
        none
        none
        (view filled_db)
        (unyank_version calm_session (text "acme") (text "code-review") (text "1.2.0") filled_db).0
        (view
          (unyank_version calm_session
            (text "acme")
            (text "code-review")
            (text "1.2.0")
            filled_db).1)
yank-Marks_example =
    yank-Marks (text "acme") (text "code-review") (text "1.2.0") filled_db filled_db-IsWellFormed
      calm_session refl (text "bug")

-- While Bob publishes a newer version, this one is yanked by somebody else.
abbrev newer_request : PublishSkillRequest
newer_request = record request { manifest = record request.manifest { version = text "1.3.0" } }

abbrev interrupted_session : Session
interrupted_session = record calm_session {
  others = λ d.
      (yank_version calm_session (text "acme") (text "code-review") (text "1.2.0") (text "bug")
        d).1;
}

abbrev overlapped_db : Db
overlapped_db =
    (insert_version interrupted_session (text "acme") private (text "bob") newer_request
      filled_db).1

Reaches-Holds_example :
    Holds (text "acme") (text "code-review") (text "1.2.0") first_record overlapped_db
Reaches-Holds_example =
    Reaches-Holds (text "acme") (text "code-review") (text "1.2.0") first_record
      (publishes interrupted_session (text "acme") private (text "bob") newer_request
        (λ d.
          yanks calm_session (text "acme") (text "code-review") (text "1.2.0") (text "bug") refl)
        refl)
      (filled_db-IsWellFormed, (none, none, lookup_run))

public_run :
    public_version_by_name crates
      (λ rows. rows)
      calm_session
      filled_db
      (text "code-review")
      (text "1.2.0")
    ≡ ok first_record
unfolding index_code public_version_by_name
public_run = refl

-- The version is committed by another session before the insert.
abbrev racing_session : Session
racing_session = record calm_session { others = λ d. filled_db }

abbrev skill_db : Db
skill_db = record {
  skills = skill_row calm_session (text "acme") public request ∷ [];
  skill_versions = [];
}

skill_db-IsRaced :
    IsRaced racing_session (text "acme") private (text "bob") request skill_db first_record
unfolding index_code
skill_db-IsRaced = record {
  before = skill_row calm_session (text "acme") public request;
  after = skill_row calm_session (text "acme") public request;
  found = refl;
  missing = refl;
  kept = refl;
  same_id = refl;
  committed = refl;
}

insert_version-race_example :
    insert_version racing_session (text "acme") private (text "bob") request skill_db
    ≡ (settled (text "acme") request first_record, filled_db)
insert_version-race_example =
    insert_version-race racing_session (text "acme") private (text "bob") request skill_db
      first_record skill_db-IsRaced (λ s. refl)
