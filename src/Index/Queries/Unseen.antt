-- ===== src/Index/Queries/Unseen.antt =====
-- Publishing a version of a skill that is not public.
use mathlib.Core.Path.{subst}
use agentenv_skills_hub.Index.Postgres.Rule.{insert_version_kept}
use agentenv_skills_hub.Index.Postgres.WellFormed.{
  Upserted-IsWellFormed, NewVersion-IsWellFormed, has_skill, IsWellFormed,
}
use agentenv_skills_hub.Index.Queries.{Row}
use agentenv_skills_hub.Core.Model.{SkillVersionRecord, Uuid, PublishSkillRequest, Visibility}
use agentenv_skills_hub.Common.Apart.{All-of_any, All-map_same, All_at_find, All-keep, Apart}
use agentenv_skills_hub.Index.Tables.{update_latest, is_skill, SkillRow, Db}
use agentenv_skills_hub.Index.Postgres.{version_row, insert_version, skill_row, Session}
use agentenv_skills_hub.Common.Text.{Text}
use agentenv_skills_hub.Index.Postgres.Upserts.{
  Upserted, there, added, insert_skill_version-written, insert_skill_version-raced,
}
use agentenv_skills_hub.Index.Postgres.Steps.{NewVersion, written, raced}
use agentenv_skills_hub.Index.Queries.Listed.{
  listed_written, listed_hidden, is_public, HidesId, listed_rows,
}
use agentenv_skills_hub.Common.{
  ◌∙◌, ap, arith, sym, Bool-cases, false, true, some, ◌==◌, All, ◌≡◌, List, find, [], ◌∷◌, inl, inr,
}

-- No row of this name is that of a public skill.
abbrev pub HidesName : Text → Text → List SkillRow → Type 0
HidesName namespace name skills =
    All (λ s. is_skill namespace name s ≡ true → is_public s ≡ false) skills

-- The key of a hidden skill hides it.
HidesId-of_find :
    (namespace name : Text) (skills : List SkillRow) (s : SkillRow)
    → Apart (λ (s : SkillRow) (t : SkillRow). t.id == s.id) skills
    → HidesName namespace name skills
    → find (is_skill namespace name) skills ≡ some s
    → HidesId s.id skills
unfolding find
HidesId-of_find namespace name [] s apart hides h = tt
HidesId-of_find namespace name (x ∷ xs) s apart hides h =
    elim (Bool-cases (is_skill namespace name x)) [
      | inl e ↦
          subst (λ k. HidesId k (x ∷ xs)) (ap (λ (t : SkillRow). t.id) (some_inj x s (rw e at h)))
            (
              (λ _. hides.0 e),
              All-keep (λ (t : SkillRow). (t.id == x.id) ≡ false)
                  (λ (t : SkillRow). (t.id == x.id) ≡ true → is_public t ≡ false) xs
                  (λ t n y. absurd (ground arith)) apart.0,
            )
      | inr e ↦
          let found = rw e at h in
          (
            (λ y. absurd (
                ground (
                  arith,
                  All_at_find (λ (t : SkillRow). (t.id == x.id) ≡ false) (is_skill namespace name)
                      xs s apart.0 found,
                ))),
            HidesId-of_find namespace name xs s apart.1 hides.1 found,
          )
    ]
  where
    some_inj : (a b : SkillRow) → some a ≡ some b → a ≡ b
    some_inj a b h = cc

module _ (session : Session) (alone : (d : Db) → session.others d ≡ d) (namespace : Text)
    (visibility : Visibility) (published_by : Text) (request : PublishSkillRequest)
    (hidden : is_public (skill_row session namespace visibility request) ≡ false)
    (rows : List Row) where
  abbrev Unseen : Db → Type 0
  Unseen d =
      IsWellFormed d × HidesName namespace request.manifest.name d.skills × (listed_rows d ≡ rows)

  abbrev UnseenAt : Uuid → Db → Type 0
  UnseenAt k d = Unseen d × (has_skill k d ≡ true) × HidesId k d.skills

  hidden_of_Upserted :
      {before after : Db} {k : Uuid}
      → Upserted (skill_row session namespace visibility request) before k after
      → Unseen before
      → HidesName namespace request.manifest.name after.skills
        × (listed_rows after ≡ rows)
        × HidesId k after.skills
  hidden_of_Upserted {before} (there s f i a) (w, hides, same) =
      rw (a, i)
        (
          hides,
          same,
          HidesId-of_find namespace request.manifest.name before.skills s w.skill_ids hides f,
        )
  hidden_of_Upserted {before} (added f unused i a) (w, hides, same) =
      let row = skill_row session namespace visibility request in
      rw a (
        ((λ _. hidden), hides),
        listed_hidden row before.skills before.skill_versions hidden ∙ same,
        subst (λ k. HidesId k (row ∷ before.skills)) (sym i)
            (
              (λ _. hidden),
              All-keep (λ (t : SkillRow). (t.id == row.id) ≡ false)
                  (λ (t : SkillRow). (t.id == row.id) ≡ true → is_public t ≡ false) before.skills
                  (λ t n y. absurd (ground arith))
                  (All-of_any (λ (t : SkillRow). t.id == row.id) before.skills unused),
            ),
      )

  Upserted-UnseenAt :
      {before after : Db} {k : Uuid}
      → Upserted (skill_row session namespace visibility request) before k after
      → Unseen before
      → UnseenAt k after
  Upserted-UnseenAt u h =
      let (w, owned) = Upserted-IsWellFormed u h.0 in
      let (hides, same, hides_id) = hidden_of_Upserted u h in ((w, hides, same), owned, hides_id)

  rows_of_NewVersion :
      {before after : Db} {k : Uuid} {stored : SkillVersionRecord}
      → NewVersion session namespace request published_by k stored before after
      → UnseenAt k before
      → HidesName namespace request.manifest.name after.skills × (listed_rows after ≡ rows)
  unfolding update_latest
  rows_of_NewVersion {before} {k = k} (written db i s a) ((w, hides, same), owned, hides_id) =
      rw (a, (insert_skill_version-written _ before db i).1)
        (
          All-map_same
              (λ (s : SkillRow).
                is_skill namespace request.manifest.name s ≡ true → is_public s ≡ false)
              (λ (s : SkillRow).
                is_skill namespace request.manifest.name s ≡ true → is_public s ≡ false)
              _ before.skills (λ s g. ground arith) hides,
          listed_written _ (version_row session k published_by request) (λ s n. ground (arith, n))
                (λ s. ground arith) before.skill_versions before.skills hides_id
              ∙ same,
        )
  rows_of_NewVersion {before} (raced db i s d a) ((w, hides, same), owned, hides_id) =
      rw (a, (insert_skill_version-raced _ before db i).0) (hides, same)

  NewVersion-Unseen :
      {before after : Db} {k : Uuid} {stored : SkillVersionRecord}
      → NewVersion session namespace request published_by k stored before after
      → UnseenAt k before
      → Unseen after
  NewVersion-Unseen new h =
      let (hides, same) = rows_of_NewVersion new h in
      (NewVersion-IsWellFormed new h.1 h.0.0, hides, same)

  pub insert_version-Unseen :
      (db : Db)
      → Unseen db
      → Unseen (insert_version session namespace visibility published_by request db).1
  insert_version-Unseen db h =
      insert_version_kept session namespace visibility published_by request {P = Unseen}
        {Q = UnseenAt}
        (record {
          upserts = λ u g. Upserted-UnseenAt u g;
          commits = λ k d g. g.0;
          writes = λ new g. NewVersion-Unseen new g;
          others = λ d g. rw (alone d) g;
          others_inside = λ k d g. rw (alone d) g;
        })
        db h
