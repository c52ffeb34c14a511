-- ===== src/Index/Migrations/Laws.antt =====
-- What migrating a database does.
use agentenv_skills_hub.Index.Migrations.Ensure.{
  IsMade, ensure-Extends, ensure-Apart, ensure-added, init_script-distinct, Extends, ensure_created,
  ensure_there, ensure-Has, ensure, Has,
}
use mathlib.Core.List.{Mem}
use mathlib.Core.Logic.{◌∨₁◌}
use agentenv_skills_hub.Common.Text.{Text}
use agentenv_skills_hub.Common.Apart.{Apart}
use agentenv_skills_hub.Index.Migrations.{
  commit, lock, begin, create, MigrationTx, init_script, execute, same_name, Object, Step, Catalog,
  create_if_not_exists, run_migrations,
}
use agentenv_skills_hub.Common.{
  Option-cases, Result, ◌⊎◌, ap, ◌∙◌, ◌≡◌, Option, All, List, [], ◌∷◌, ok, err, inl, inr, refl,
}

module _ (fault : Step → Option Text) (others : Catalog → Catalog) where
  execute-cases :
      (objects : List Object) (tx : MigrationTx)
      → (execute fault others objects tx ≡ (ok tt, record tx { view = ensure objects tx.view }))
        ⊎ ((e : Text) × (after : MigrationTx) × (execute fault others objects tx ≡ (err e, after))
            × (after.shared ≡ tx.shared))
  unfolding execute ensure
  execute-cases [] tx = inl refl
  execute-cases (o ∷ objects) tx = elim (Option-cases (fault (create o))) [
    | inr (message, f) ↦ inr (message, tx, rw f refl, refl)
    | inl f ↦ rw f (execute-cases objects (record tx { view = create_if_not_exists o tx.view }))
  ]

  -- What migrating does, whatever its outcome.
  pub run_migrations-cases :
      (catalog : Catalog)
      → (run_migrations fault others catalog ≡ (ok tt, ensure init_script (others catalog)))
        ⊎ ((e : Text) × ((run_migrations fault others catalog ≡ (err e, catalog))
              ⊎ (run_migrations fault others catalog ≡ (err e, others catalog))))
  unfolding run_migrations
  run_migrations-cases catalog = elim (Option-cases (fault begin)) [
    | inr (message, b) ↦ inr (message, inl (rw b refl))
    | inl b ↦ elim (Option-cases (fault lock)) [
      | inr (message, l) ↦ inr (message, inr (rw (b, l) refl))
      | inl l ↦
          elim (execute-cases init_script
            (record { view = others catalog; shared = others catalog })) [
              | inr (e, after, x, s) ↦ inr (e, inr (rw (b, l, x) (ap (λ c. (err e, c)) s)))
              | inl x ↦ elim (Option-cases (fault commit)) [
                | inr (message, c) ↦ inr (message, inr (rw (b, l, x, c) refl))
                | inl c ↦ inl (rw (b, l, x, c) refl)
              ]
            ]
    ]
  ]

  migrated_to :
      (catalog after : Catalog)
      → run_migrations fault others catalog ≡ (ok tt, after)
      → after ≡ ensure init_script (others catalog)
  migrated_to catalog after h = elim (run_migrations-cases catalog) [
    | inl k ↦ cc
    | inr (e, inl k) ↦ absurd (cc)
    | inr (e, inr k) ↦ absurd (cc)
  ]

  -- What a migrated database has.
  pub record IsMigrated (before after : Catalog) : Type 0 where
    pub complete : All (Has after) init_script
    pub created : All (IsMade before after) init_script
    pub alone : (o : Object) → Mem o after → (Mem o init_script) ∨₁ (Mem o before)
    pub unambiguous : Apart same_name after
    pub untouched : Extends before after

  -- Migrating, where it succeeds, leaves every object of the script there, as the script defines it,
  -- where none of its name was there when the lock was taken. What was there then is unchanged, and
  -- nothing else is there. Each name of the script is taken, and by one object, if no two objects had
  -- one name then.
  pub run_migrations-IsMigrated :
      (catalog after : Catalog)
      → Apart same_name (others catalog)
      → run_migrations fault others catalog ≡ (ok tt, after)
      → IsMigrated (others catalog) after
  run_migrations-IsMigrated catalog after apart h = rw (migrated_to catalog after h) (record {
    complete = ensure-Has init_script (others catalog);
    created = ensure_created init_script (others catalog) init_script-distinct;
    alone = ensure-added init_script (others catalog);
    unambiguous = ensure-Apart init_script (others catalog) apart;
    untouched = ensure-Extends init_script (others catalog);
  })

-- Migrating a database that has been migrated changes nothing, whether it succeeds or fails. No other
-- process commits in between.
pub run_migrations_twice :
    (fault again : Step → Option Text) (others quiet : Catalog → Catalog) (catalog after : Catalog)
    → run_migrations fault others catalog ≡ (ok tt, after)
    → quiet after ≡ after
    → (run_migrations again quiet after).1 ≡ after
run_migrations_twice fault again others quiet catalog after h still =
    let there : ensure init_script (quiet after) ≡ after = rw still (
      ensure_there init_script after (
        rw (migrated_to fault others catalog after h) (ensure-Has init_script (others catalog)))) in
    elim (run_migrations-cases again quiet after) [
      | inl k ↦ ap (λ (x : Result Text Unit × Catalog). x.1) k ∙ there
      | inr (e, inl k) ↦ ap (λ (x : Result Text Unit × Catalog). x.1) k
      | inr (e, inr k) ↦ ap (λ (x : Result Text Unit × Catalog). x.1) k ∙ still
    ]
