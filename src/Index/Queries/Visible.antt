-- ===== src/Index/Queries/Visible.antt =====
-- Whether the skill of a publish is public afterwards.
use agentenv_skills_hub.Common.Text.Laws.{text_eq_refl}
use agentenv_skills_hub.Index.Queries.Listed.{is_public}
use agentenv_skills_hub.Index.Queries.Served.{is_public_skill}
use agentenv_skills_hub.Core.Model.{Uuid, SkillVersionRecord, PublishSkillRequest, Visibility}
use agentenv_skills_hub.Index.Postgres.{visibility_text, insert_version, skill_row, Session}
use agentenv_skills_hub.Common.Text.{text, text_eq, Text}
use agentenv_skills_hub.Index.Tables.{is_skill, update_latest, Db, SkillRow}
use agentenv_skills_hub.Common.Apart.{any-map}
use agentenv_skills_hub.Common.Find.{any_of_find, none-some, found_of_any}
use agentenv_skills_hub.Index.Postgres.Steps.{
  insert_version-Inserted, existing, fresh, written, raced, NewVersion,
}
use agentenv_skills_hub.Index.Postgres.Upserts.{
  Upserted, added, insert_skill_version-raced, insert_skill_version-written, there,
  upsert_skill-Upserted,
}
use agentenv_skills_hub.Common.{
  ap, ◌∙◌, sym, arith, ◌&&◌, ◌≡◌, find, if◌then◌else◌, List, Bool, any, refl, [], ◌∷◌, inl, inr,
  false, none, Bool-cases, ok,
}

-- A skill that is there keeps its visibility, and a new one has that of the publish.
abbrev pub public_afterwards : Text → Text → Visibility → Db → Bool
public_afterwards namespace name visibility before =
    if any (is_skill namespace name) before.skills
    then is_public_skill namespace name before
    else text_eq (visibility_text visibility) (text "public")

any_weaker :
    (p q : SkillRow → Bool) (xs : List SkillRow)
    → any p xs ≡ false
    → any (λ s. p s && q s) xs ≡ false
unfolding any
any_weaker p q [] h = refl
any_weaker p q (x ∷ xs) h = ground (arith, any_weaker p q xs)

any_of_unfound : (p : SkillRow → Bool) (xs : List SkillRow) → find p xs ≡ none → any p xs ≡ false
any_of_unfound p xs h = elim (Bool-cases (any p xs)) [
  | inr e ↦ e
  | inl e ↦ let (s, f) = found_of_any p xs e in absurd (none-some s (sym h ∙ f))
]

module _ (session : Session) (namespace : Text) (visibility : Visibility) (published_by : Text)
    (request : PublishSkillRequest) where
  public_of_Upserted :
      {before after : Db} {k : Uuid}
      → Upserted (skill_row session namespace visibility request) before k after
      → is_public_skill namespace request.manifest.name after
        ≡ public_afterwards namespace request.manifest.name visibility before
  unfolding any
  public_of_Upserted {before} (there s e i a) =
      rw (a, any_of_find (is_skill namespace request.manifest.name) before.skills s e) refl
  public_of_Upserted {before} (added e u i a) =
      let missing = any_of_unfound (is_skill namespace request.manifest.name) before.skills e in
      rw
        (
          a,
          missing,
          text_eq_refl namespace,
          text_eq_refl request.manifest.name,
          any_weaker (is_skill namespace request.manifest.name) is_public before.skills missing,
        )
        (ground arith)

  public_of_NewVersion :
      {before after : Db} {k : Uuid} {stored : SkillVersionRecord}
      → NewVersion session namespace request published_by k stored before after
      → is_public_skill namespace request.manifest.name after
        ≡ is_public_skill namespace request.manifest.name before
  unfolding update_latest
  public_of_NewVersion {before} (written d i s a) =
      rw (a, (insert_skill_version-written _ before d i).1)
        (any-map (λ s. is_skill namespace request.manifest.name s && is_public s)
          (λ s. is_skill namespace request.manifest.name s && is_public s) _ before.skills
          (λ s. ground arith))
  public_of_NewVersion {before} (raced d i s g a) =
      rw (a, (insert_skill_version-raced _ before d i).0) refl

  pub is_public_skill-insert_version :
      (db after : Db) (stored : SkillVersionRecord)
      → ((d : Db) → session.others d ≡ d)
      → insert_version session namespace visibility published_by request db ≡ (ok stored, after)
      → is_public_skill namespace request.manifest.name after
        ≡ public_afterwards namespace request.manifest.name visibility db
  is_public_skill-insert_version db after stored alone h =
      elim (insert_version-Inserted session namespace visibility published_by request stored db
        after h) [
          | existing k d u s g a ↦ rw a (public_of_Upserted (upsert_skill-Upserted _ db d k u))
          | fresh k d u s new ↦
              public_of_NewVersion new
              ∙ ap (is_public_skill namespace request.manifest.name) (alone d)
              ∙ public_of_Upserted (upsert_skill-Upserted _ db d k u)
        ]
