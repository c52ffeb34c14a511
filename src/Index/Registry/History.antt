-- ===== src/Index/Registry/History.antt =====
-- What a version keeps over any sequence of calls.
use agentenv_skills_hub.Common.Text.Laws.{text_rules}
use agentenv_skills_hub.Index.Registry.Yank.{yank-Marks}
use agentenv_skills_hub.Index.Postgres.Lookup.{lookup_version}
use agentenv_skills_hub.Index.Postgres.Yank.{marked}
use agentenv_skills_hub.Index.Postgres.Publishing.{insert_version-keeps}
use agentenv_skills_hub.Core.Model.{
  PublishSkillRequest, OffsetDateTime, SkillVersionRecord, Visibility,
}
use agentenv_skills_hub.Index.Postgres.WellFormed.{
  yank-IsWellFormed, insert_version-IsWellFormed, IsWellFormed,
}
use agentenv_skills_hub.Common.Text.{Text}
use agentenv_skills_hub.Index.Tables.{Db}
use agentenv_skills_hub.Index.Postgres.{
  update_yank, insert_version, Session, yank_version, unyank_version,
}
use mathlib.Core.Option
use mathlib.Core.Option.{Option}
use agentenv_skills_hub.Index.Registry.{same_key, Registry, view, update}
use agentenv_skills_hub.Common.{
  Bool-cases, Option-cases, ◌≡◌, refl, none, some, inl, inr, ◌∙◌, ap, [], ◌∷◌, List, All,
}

pub data Call : Type 0 where
  publish :
      Session → (namespace : Text) → Visibility → (published_by : Text) → PublishSkillRequest → Call
  yank : Session → (namespace name version reason : Text) → Call
  unyank : Session → (namespace name version : Text) → Call

-- The tables after the calls; an answer that is an error does not end the sequence.
unfoldable pub apply : Call → Db → Db
apply (publish session namespace visibility published_by request) db =
    (insert_version session namespace visibility published_by request db).1
apply (yank session namespace name version reason) db =
    (yank_version session namespace name version reason db).1
apply (unyank session namespace name version) db =
    (unyank_version session namespace name version db).1

unfoldable pub run : List Call → Db → Db
unfolding apply
run [] db = db
run (call ∷ calls) db = run calls (apply call db)

-- The calls are serialized: no other session commits inside one of them.
abbrev pub IsAlone : Call → Type 0
IsAlone (publish session namespace visibility published_by request) =
    (d : Db) → session.others d ≡ d
IsAlone _ = Unit

apply-IsWellFormed :
    (call : Call) (db : Db) → IsAlone call → IsWellFormed db → IsWellFormed (apply call db)
unfolding apply
apply-IsWellFormed (publish session namespace visibility published_by request) db alone w =
    insert_version-IsWellFormed session namespace visibility published_by request db
      (record { keys = λ d h. rw (alone d) h; skills = λ d k h. rw (alone d) h }) w
apply-IsWellFormed (yank session namespace name version reason) db alone w =
    (yank-IsWellFormed session namespace name version reason db w).0
apply-IsWellFormed (unyank session namespace name version) db alone w =
    (yank-IsWellFormed session namespace name version [] db w).1

pub yank_fault :
    (session : Session) (n m v reason : Text) (db : Db) (message : Text)
    → session.fault update_yank ≡ some message
    → (yank_version session n m v reason db).1 ≡ db
unfolding yank_version
yank_fault session n m v reason db message e = rw e refl

pub unyank_fault :
    (session : Session) (n m v : Text) (db : Db) (message : Text)
    → session.fault update_yank ≡ some message
    → (unyank_version session n m v db).1 ≡ db
unfolding unyank_version
unyank_fault session n m v db message e = rw e refl

module _ (namespace name version : Text) where
  -- The record, with whatever yank mark.
  abbrev pub IsKept : SkillVersionRecord → Db → Type 0
  IsKept r db =
      (at : Option OffsetDateTime) × (reason : Option Text) × (lookup_version namespace name version
          db
        ≡ some (marked at reason r))

  updated-IsKept :
      (r : SkillVersionRecord) (n m v : Text) (at : Option OffsetDateTime) (reason : Option Text)
      (db after : Db)
      → view after ≡ update n m v (Option.map (marked at reason) (view db n m v)) (view db)
      → IsKept r db
      → IsKept r after
  updated-IsKept r n m v at reason db after changed (a, b, h) =
      elim (Bool-cases (same_key n m v namespace name version)) [
        | inl same ↦
            let e : n ≡ namespace = grind text_rules in
            let f : m ≡ name = grind text_rules in
            let g : v ≡ version = grind text_rules in
            (
              at,
              reason,
              ap (λ (t : Registry). t namespace name version) changed
                  ∙ rw same (rw (e, f, g, h) refl),
            )
        | inr other ↦ (a, b, ap (λ (t : Registry). t namespace name version) changed ∙ rw other h)
      ]

  pub apply-IsKept :
      (r : SkillVersionRecord) (call : Call) (db : Db)
      → IsAlone call
      → IsWellFormed db
      → IsKept r db
      → IsKept r (apply call db)
  unfolding apply
  apply-IsKept r (publish session n visibility published_by request) db alone w (a, b, h) = (
    a,
    b,
    insert_version-keeps namespace name version (marked a b r) session n visibility published_by
        request db (λ d k. rw (alone d) k) h,
  )
  apply-IsKept r (yank session n m v reason) db alone w k =
      elim (Option-cases (session.fault update_yank)) [
        | inl works ↦
            updated-IsKept r n m v (some session.now) (some reason) db _
              (yank-Marks n m v db w session works reason).0.changed k
        | inr (message, e) ↦ rw (yank_fault session n m v reason db message e) k
      ]
  apply-IsKept r (unyank session n m v) db alone w k =
      elim (Option-cases (session.fault update_yank)) [
        | inl works ↦
            updated-IsKept r n m v none none db _ (yank-Marks n m v db w session works []).1.changed
              k
        | inr (message, e) ↦ rw (unyank_fault session n m v db message e) k
      ]

  -- A published version is never lost and never replaced: after any sequence of publishes, yanks and
  -- unyanks, of this or other versions, successful or not, its record is found with nothing changed
  -- but the yank mark. The tables have their keys, and the calls do not overlap.
  pub run-IsKept :
      (r : SkillVersionRecord) (calls : List Call) (db : Db)
      → All IsAlone calls
      → IsWellFormed db
      → IsKept r db
      → IsKept r (run calls db)
  unfolding run
  run-IsKept r [] db alone w k = k
  run-IsKept r (call ∷ calls) db alone w k =
      run-IsKept r calls (apply call db) alone.1 (apply-IsWellFormed call db alone.0 w)
        (apply-IsKept r call db alone.0 w k)
