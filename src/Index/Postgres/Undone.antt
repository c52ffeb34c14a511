-- ===== src/Index/Postgres/Undone.antt =====
-- Calls of the repository that fail leave the tables as they were.
use agentenv_skills_hub.Index.Postgres.Failures.{insert_version-err}
use agentenv_skills_hub.Core.Error.{HubResult, HubError}
use agentenv_skills_hub.Core.Model.{PublishSkillRequest, OffsetDateTime, Visibility}
use agentenv_skills_hub.Common.Text.{Text}
use agentenv_skills_hub.Index.Tables.{is_target, Db, set_yank}
use agentenv_skills_hub.Index.Postgres.{
  update_yank, insert_version, found_rows, yank_version, Session, unyank_version,
}
use agentenv_skills_hub.Common.{
  [], ◌∷◌, none, some, Bool-cases, sym, ◌∙◌, inr, if◌then◌else◌, Option-cases, map, inl, ap, arith,
  err, true, ◌≡◌, length, ◌==◌, List, Option, Bool, ℕ, keep, refl,
}

-- An update that meets no row changes none.
map_no_rows :
    {A : Type 0} (p : A → Bool) (f : A → A) (xs : List A)
    → (length (keep p xs) == 0) ≡ true
    → map (λ x. if p x then f x else x) xs ≡ xs
unfolding keep
map_no_rows p f [] h = refl
map_no_rows p f (x ∷ xs) h = elim (Bool-cases (p x)) [
  | inl e ↦ absurd (ground (arith, e))
  | inr e ↦ rw e (ap (λ ys. x ∷ ys) (map_no_rows p f xs (rw e at h)))
]

set_yank_none :
    (at : Option OffsetDateTime) (reason : Option Text) (namespace name version : Text) (db : Db)
    → ((set_yank at reason namespace name version db).0 == 0) ≡ true
    → (set_yank at reason namespace name version db).1 ≡ db
unfolding set_yank
set_yank_none at reason namespace name version db h =
    ap (λ rows. record db { skill_versions = rows })
      (map_no_rows (is_target namespace name version db.skills)
        (λ sv. record sv { yanked_at = at; yank_reason = reason }) db.skill_versions h)

found_rows-err :
    (namespace name version : Text) (rows : ℕ) (db after : Db) (e : HubError)
    → found_rows namespace name version (rows, db) ≡ (err e, after)
    → ((rows == 0) ≡ true) × (after ≡ db)
found_rows-err namespace name version rows db after e h = (ground arith, ground arith)

pub yank_version-err :
    (session : Session) (namespace name version reason : Text) (e : HubError) (db after : Db)
    → yank_version session namespace name version reason db ≡ (err e, after)
    → after ≡ db
unfolding yank_version
yank_version-err session namespace name version reason e db after h =
    elim (Option-cases (session.fault update_yank)) [
      | inr (message, k) ↦ ap (λ (x : HubResult Unit × Db). x.1) (sym (rw k at h))
      | inl works ↦
          let (none_there, same) =
            found_rows-err namespace name version _ _ after e (rw works at h) in
          same ∙ set_yank_none (some session.now) (some reason) namespace name version db none_there
    ]

pub unyank_version-err :
    (session : Session) (namespace name version : Text) (e : HubError) (db after : Db)
    → unyank_version session namespace name version db ≡ (err e, after)
    → after ≡ db
unfolding unyank_version
unyank_version-err session namespace name version e db after h =
    elim (Option-cases (session.fault update_yank)) [
      | inr (message, k) ↦ ap (λ (x : HubResult Unit × Db). x.1) (sym (rw k at h))
      | inl works ↦
          let (none_there, same) =
            found_rows-err namespace name version _ _ after e (rw works at h) in
          same ∙ set_yank_none none none namespace name version db none_there
    ]

pub insert_version_undone :
    (session : Session) (namespace : Text) (visibility : Visibility) (published_by : Text)
    (request : PublishSkillRequest) (e : HubError) (before after : Db)
    → ((d : Db) → session.others d ≡ d)
    → insert_version session namespace visibility published_by request before ≡ (err e, after)
    → after ≡ before
insert_version_undone session namespace visibility published_by request e before after alone h =
    elim (insert_version-err session namespace visibility published_by request e before after h) [
      | inl same ↦ same
      | inr others ↦ others ∙ alone before
    ]
