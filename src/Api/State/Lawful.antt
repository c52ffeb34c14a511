-- ===== src/Api/State/Lawful.antt =====
-- The repository of crates/hub-index keeps the laws that the service of crates/hub-core asks for.
use agentenv_skills_hub.Index.Registry.History.{yank_fault}
use agentenv_skills_hub.Index.Registry.Yank.{yank-Marks}
use agentenv_skills_hub.Common.Text.Laws.{text_eq_iff}
use agentenv_skills_hub.Index.Registry.Publish.{insert_version-Publishes}
use agentenv_skills_hub.Core.Error.{HubResult}
use agentenv_skills_hub.Index.Postgres.WellFormed.{
  yank-IsWellFormed, insert_version-IsWellFormed, IsWellFormed,
}
use agentenv_skills_hub.Core.Model.{PublishSkillRequest, SkillVersionRecord}
use agentenv_skills_hub.Common.{refl, inr, inl, ◌∙◌, Option-cases, ap, Bool-cases, ◌≢◌, ◌≡◌, Option}
use agentenv_skills_hub.Index.Tables.{Db}
use agentenv_skills_hub.Common.Text.{text_eq, Text}
use agentenv_skills_hub.Index.Postgres.{update_yank, yank_version, Session}
use agentenv_skills_hub.Core.Service.Isolation.{IsRepository}
use agentenv_skills_hub.Api.State.{pg_repository}
use agentenv_skills_hub.Index.Registry.{
  created, kept, refused, failed, update, view, Registry, Publishes,
}

pub update_apart :
    (namespace name version : Text) (entry : Option SkillVersionRecord) (before : Registry)
    (n m v : Text)
    → namespace ≢ n
    → update namespace name version entry before n m v ≡ before n m v
update_apart namespace name version entry before n m v other =
    elim (Bool-cases (text_eq namespace n)) [
      | inl e ↦ absurd (other ((text_eq_iff namespace n).0 e))
      | inr e ↦ rw e refl
    ]

module _ (session : Session) (alone : (d : Db) → session.others d ≡ d) where
  Publishes_apart :
      (namespace : Text) (request : PublishSkillRequest) (before after : Registry)
      (answer : HubResult SkillVersionRecord) (n m v : Text)
      → namespace ≢ n
      → Publishes session namespace request before answer after
      → after n m v ≡ before n m v
  Publishes_apart namespace request before after answer n m v other (created _ _ e) =
      ap (λ (t : Registry). t n m v) e
      ∙ update_apart namespace request.manifest.name request.manifest.version _ before n m v other
  Publishes_apart namespace request before after answer n m v other (kept _ _ _ _ e) =
      ap (λ (t : Registry). t n m v) e
  Publishes_apart namespace request before after answer n m v other (refused _ _ _ _ e) =
      ap (λ (t : Registry). t n m v) e
  Publishes_apart namespace request before after answer n m v other (failed _ _ _ e) =
      ap (λ (t : Registry). t n m v) e

  yank_version_apart :
      (namespace name version reason : Text) (db : Db) (n m v : Text)
      → IsWellFormed db
      → namespace ≢ n
      → view (yank_version session namespace name version reason db).1 n m v ≡ view db n m v
  yank_version_apart namespace name version reason db n m v w other =
      elim (Option-cases (session.fault update_yank)) [
        | inl works ↦
            ap (λ (t : Registry). t n m v)
              (yank-Marks namespace name version db w session works reason).0.changed
            ∙ update_apart namespace name version _ (view db) n m v other
        | inr (message, e) ↦
            ap (λ (d : Db). view d n m v)
              (yank_fault session namespace name version reason db message e)
      ]

  pub pg_repository-IsRepository : IsRepository (pg_repository session) IsWellFormed view
  pg_repository-IsRepository = record {
    insert-IsSound = λ namespace visibility published_by request db w.
        insert_version-IsWellFormed session namespace visibility published_by request db
          (record { keys = λ d h. rw (alone d) h; skills = λ d k h. rw (alone d) h }) w;
    yank-IsSound = λ namespace name version reason db w.
        (yank-IsWellFormed session namespace name version reason db w).0;
    insert_apart = λ namespace visibility published_by request db n m v w other.
        Publishes_apart namespace request (view db) _ _ n m v other
          (insert_version-Publishes session namespace visibility published_by request db w alone);
    yank_apart = λ namespace name version reason db n m v w other.
        yank_version_apart namespace name version reason db n m v w other;
  }
