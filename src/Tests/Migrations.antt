-- ===== src/Tests/Migrations.antt =====
-- The theorems about the migrations at a concrete database.
use agentenv_skills_hub.Index.Migrations.{
  begin, lock, commit, create, table, run_migrations, Catalog, Step,
}
use agentenv_skills_hub.Index.Migrations.Laws.{run_migrations_twice}
use agentenv_skills_hub.Common.Text.{text, text_eq, Text}
use agentenv_skills_hub.Common.{◌≡◌, Option, refl, none, some, [], ◌∷◌, ok}

abbrev works : Step → Option Text
works step = none

abbrev alone : Catalog → Catalog
alone catalog = catalog

-- A database that has a table of the script already, with another definition.
abbrev older : Catalog
older =
    record { kind = table; name = text "api_tokens"; definition = text "id uuid PRIMARY KEY" ∷ [] }
    ∷ []

abbrev migrated : Catalog
migrated = (run_migrations works alone older).1

migrations_run : run_migrations works alone older ≡ (ok tt, migrated)
unfolding run_migrations text_eq
migrations_run = refl

-- The second process fails at its first statement that creates something.
abbrev interrupted : Step → Option Text
interrupted begin = none
interrupted lock = none
interrupted commit = none
interrupted (create o) = some (text "connection closed")

run_migrations_twice_example : (run_migrations interrupted alone migrated).1 ≡ migrated
run_migrations_twice_example =
    run_migrations_twice works interrupted alone alone older migrated migrations_run refl
