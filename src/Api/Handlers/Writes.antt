-- ===== src/Api/Handlers/Writes.antt =====
-- The handlers of crates/hub-api/src/handlers.rs that publish and yank. The state is the database and
-- the queue; a handler answers with a status, and a body where it has one.
pub mod Guards
pub mod Yanked
use agentenv_skills_hub.Api.Handlers.{
  unavailable, bad_request, auth_from_headers, HeaderMap, from, ApiError,
}
use agentenv_skills_hub.Core.Service.{publish, yank}
use agentenv_skills_hub.Core.Auth.{can_publish, can_yank}
use agentenv_skills_hub.Core.Model.{SkillVersionRecord, PublishSkillRequest, public, Visibility}
use agentenv_skills_hub.Common.Text.{text_eq, text, Text}
use agentenv_skills_hub.Api.State.App.{AppState}
use agentenv_skills_hub.Api.State.{RuntimeWebhookQueue}
use agentenv_skills_hub.Core.Crates.{Crates}
use agentenv_skills_hub.Core.Error.{HubError}
use agentenv_skills_hub.Index.Tables.{Db}
use agentenv_skills_hub.Index.Postgres
use agentenv_skills_hub.Common.{
  ◌++◌, not, ok_or, map_err, reject_if, ℕ, Option, Result, ok, err, none, some, if◌then◌else◌,
}
use agentenv_skills_hub.Common.State.{◌>>=◌, ◌>>◌, lift, pure, Run}

abbrev pub World : Type 0
World = Db × RuntimeWebhookQueue

-- `?` on a call of the service or the repository.
abbrev pub answer_from : {S A : Type 0} → Result HubError A × S → Result ApiError A × S
answer_from (ok a, s) = (ok a, s)
answer_from (err e, s) = (err (from e), s)

abbrev pub calling : {S A : Type 0} → Run S HubError A → Run S ApiError A
calling call s = answer_from (call s)

abbrev pub on_db : {A : Type 0} → Run Db ApiError A → Run World ApiError A
on_db call (db, queue) = let (a, db') = call db in (a, (db', queue))

abbrev pub or_public : Option Visibility → Visibility
or_public none = public
or_public (some visibility) = visibility

abbrev pub or_by_api : Option Text → Text
or_by_api none = text "yanked by API"
or_by_api (some reason) = reason

module _ {F32 : Type 0} (crates : Crates) (state : AppState F32) (headers : HeaderMap) where
  unfoldable pub publish_version :
      Text
      → Text
      → Option Visibility
      → PublishSkillRequest
      → Run World ApiError (ℕ × SkillVersionRecord)
  publish_version namespace name visibility request = do
    lift (
        reject_if (not (text_eq request.manifest.name name)) (
          bad_request (
            text "path skill name `"
            ++ (name
                ++ (text "` does not match manifest name `"
                    ++ (request.manifest.name ++ text "`"))))))
    auth ← lift (auth_from_headers headers)
    lift (map_err from (can_publish auth namespace))
    service ← lift (ok_or (unavailable (text "hub repository is not configured")) state.service)
    stored ← calling (publish crates service auth namespace (or_public visibility) request)
    pure (201, stored)

  unfoldable pub yank_version : Text → Text → Text → Option Text → Run World ApiError ℕ
  yank_version namespace name version reason = do
    auth ← lift (auth_from_headers headers)
    service ← lift (ok_or (unavailable (text "hub repository is not configured")) state.service)
    calling (yank crates service auth namespace name version (or_by_api reason))
    pure 204

  unfoldable pub unyank_version : Text → Text → Text → Run World ApiError ℕ
  unyank_version namespace name version = do
    auth ← lift (auth_from_headers headers)
    lift (map_err from (can_yank auth namespace))
    repository ←
        lift (ok_or (unavailable (text "hub repository is not configured")) state.repository)
    on_db (calling (Postgres.unyank_version repository.session namespace name version))
    pure 204
