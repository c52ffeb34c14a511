-- ===== src/Core/Service/Yank.antt =====
-- What `yank` has checked when it succeeds.
use agentenv_skills_hub.Core.Validation.{validate_version, validate_skill_name, validate_namespace}
use agentenv_skills_hub.Core.Error.{HubError, HubResult}
use agentenv_skills_hub.Common.State.{continue, Run}
use agentenv_skills_hub.Common.State
use agentenv_skills_hub.Common.{◌>>◌, arith, ok, ◌≡◌}
use agentenv_skills_hub.Common.Text.{text, Text}
use agentenv_skills_hub.Core.Crates.{Crates}
use agentenv_skills_hub.Core.Auth.{can_yank, AuthContext}
use agentenv_skills_hub.Core.Service.{on_queue, on_repo, yank, HubService, WebhookEvent}

abbrev pub yanked : AuthContext → Text → Text → Text → WebhookEvent
yanked auth namespace name version = record {
  event_type = text "skill.yanked";
  namespace = namespace;
  name = name;
  version = version;
  subject = auth.subject;
}

module _ (crates : Crates) {R W : Type 0} (service : HubService R W) (auth : AuthContext)
    (namespace name version reason : Text) where
  -- Everything that is checked before anything is written.
  unfoldable pub yank_admission : HubResult Unit
  yank_admission = do
    can_yank auth namespace
    validate_namespace namespace
    validate_skill_name name
    validate_version crates version
    ok tt

  unfoldable pub yank_store : Run (R × W) HubError Unit
  yank_store =
      State.◌>>◌ (on_repo (service.repo.yank_version namespace name version reason))
        (on_queue (service.webhook_queue.enqueue (yanked auth namespace name version)))

  pub yank-admission :
      (s : R × W)
      → yank crates service auth namespace name version reason s
        ≡ continue (λ _. yank_store) (yank_admission, s)
  unfolding yank yank_admission yank_store
  yank-admission s = ground arith

  pub yank_admission-allowed : yank_admission ≡ ok tt → can_yank auth namespace ≡ ok tt
  unfolding yank_admission
  yank_admission-allowed h = ground arith

  -- A yank that succeeds was permitted; the repository has yanked the version, and the event is
  -- queued.
  pub yank-ok :
      (r r' : R) (w w' : W)
      → yank crates service auth namespace name version reason (r, w) ≡ (ok tt, (r', w'))
      → (can_yank auth namespace ≡ ok tt)
        × (service.repo.yank_version namespace name version reason r ≡ (ok tt, r'))
        × (service.webhook_queue.enqueue (yanked auth namespace name version) w ≡ (ok tt, w'))
  unfolding yank
  yank-ok r r' w w' h = (ground arith, ground arith, ground arith)
