-- ===== src/Core/Service.antt =====
-- crates/hub-core/src/service.rs. The traits are records of operations; `R` and `W` are the states
-- behind the repository and the queue. An `Arc` of an implementation behaves as the implementation.
pub mod Request
pub mod Publish
pub mod Isolation
pub mod Yank
use agentenv_skills_hub.Common.{
  Bool, true, false, not, ◌&&◌, ◌||◌, Option, none, some, List, [], ◌∷◌, Result, ok, err, ok_or,
  reject_if, is_some,
}
use agentenv_skills_hub.Common.State.{Run, ◌>>=◌, ◌>>◌, lift, pure}
use agentenv_skills_hub.Common.Text.{Text, text}
use agentenv_skills_hub.Core.Auth.{AuthContext, can_publish, can_yank}
use agentenv_skills_hub.Core.Crates.{Crates}
use agentenv_skills_hub.Core.Error.{
  HubError, HubResult, permission_denied, unsigned_artifact_rejected,
}
use agentenv_skills_hub.Core.Model.{
  ArtifactPointer, PublishSkillRequest, SkillVersionRecord, Visibility,
}
use agentenv_skills_hub.Core.Service.Request.{validate_publish_request}
use agentenv_skills_hub.Core.Validation.{validate_namespace, validate_skill_name, validate_version}

pub record HubRepository (R : Type 0) : Type 0 where
  pub insert_version :
      Text → Visibility → Text → PublishSkillRequest → Run R HubError SkillVersionRecord
  pub yank_version : Text → Text → Text → Text → Run R HubError Unit

pub record VerifiedArtifactStore : Type 0 where
  pub verify_artifact : ArtifactPointer → HubResult Unit

pub record TrustVerifier : Type 0 where
  pub verify_trust : PublishSkillRequest → HubResult Unit

pub record WebhookEvent : Type 0 where
  pub event_type : Text
  pub namespace : Text
  pub name : Text
  pub version : Text
  pub subject : Option Text

pub record WebhookQueue (W : Type 0) : Type 0 where
  pub enqueue : WebhookEvent → Run W HubError Unit

-- The four implementations for `Arc<T>`, which pass each call on.
abbrev pub arc_repository : {R : Type 0} → HubRepository R → HubRepository R
arc_repository inner = record {
  insert_version = λ namespace visibility published_by request r.
      inner.insert_version namespace visibility published_by request r;
  yank_version =
      λ namespace name version reason r. inner.yank_version namespace name version reason r;
}

abbrev pub arc_artifact_store : VerifiedArtifactStore → VerifiedArtifactStore
arc_artifact_store inner = record { verify_artifact = λ artifact. inner.verify_artifact artifact }

abbrev pub arc_trust_verifier : TrustVerifier → TrustVerifier
arc_trust_verifier inner = record { verify_trust = λ request. inner.verify_trust request }

abbrev pub arc_webhook_queue : {W : Type 0} → WebhookQueue W → WebhookQueue W
arc_webhook_queue inner = record { enqueue = λ event w. inner.enqueue event w }

pub record HubService (R W : Type 0) : Type 0 where
  pub repo : HubRepository R
  pub artifact_store : VerifiedArtifactStore
  pub trust_verifier : TrustVerifier
  pub webhook_queue : WebhookQueue W
  pub allow_unsigned : Bool

-- The constructor, and `with_allow_unsigned`.
abbrev pub new :
    {R W : Type 0}
    → HubRepository R
    → VerifiedArtifactStore
    → TrustVerifier
    → WebhookQueue W
    → HubService R W
new repo store trust queue = record {
  repo = repo;
  artifact_store = store;
  trust_verifier = trust;
  webhook_queue = queue;
  allow_unsigned = false;
}

abbrev pub with_allow_unsigned : {R W : Type 0} → HubService R W → Bool → HubService R W
with_allow_unsigned service allow = record service { allow_unsigned = allow }

abbrev pub on_repo : {R W A : Type 0} → Run R HubError A → Run (R × W) HubError A
on_repo m (r, w) = let (a, r') = m r in (a, (r', w))

abbrev pub on_queue : {R W A : Type 0} → Run W HubError A → Run (R × W) HubError A
on_queue m (r, w) = let (a, w') = m w in (a, (r, w'))

unfoldable pub has_signature : PublishSkillRequest → Bool
has_signature request =
    (is_some request.signature_ed25519 && is_some request.public_key_ed25519)
    || is_some request.sigstore_bundle

unfoldable pub authenticated_subject : AuthContext → Text → Text → HubResult Text
authenticated_subject auth action namespace =
    ok_or (permission_denied action namespace) auth.subject

abbrev pub published : Text → Text → SkillVersionRecord → WebhookEvent
published namespace subject record_ = record {
  event_type = text "skill.published";
  namespace = namespace;
  name = record_.name;
  version = record_.version;
  subject = some subject;
}

module _ (crates : Crates) {R W : Type 0} (service : HubService R W) where
  unfoldable pub publish :
      AuthContext
      → Text
      → Visibility
      → PublishSkillRequest
      → Run (R × W) HubError SkillVersionRecord
  publish auth namespace visibility request = do
    lift (can_publish auth namespace)
    lift (validate_publish_request crates namespace request)
    lift (
        reject_if (not service.allow_unsigned && not (has_signature request))
          unsigned_artifact_rejected)
    lift (service.artifact_store.verify_artifact request.artifact)
    lift (service.trust_verifier.verify_trust request)
    subject ← lift (authenticated_subject auth (text "publish") namespace)
    stored ← on_repo (service.repo.insert_version namespace visibility subject request)
    on_queue (service.webhook_queue.enqueue (published namespace subject stored))
    pure stored

  unfoldable pub yank : AuthContext → Text → Text → Text → Text → Run (R × W) HubError Unit
  yank auth namespace name version reason = do
    lift (can_yank auth namespace)
    lift (validate_namespace namespace)
    lift (validate_skill_name name)
    lift (validate_version crates version)
    on_repo (service.repo.yank_version namespace name version reason)
    on_queue (
        service.webhook_queue.enqueue (record {
          event_type = text "skill.yanked";
          namespace = namespace;
          name = name;
          version = version;
          subject = auth.subject;
        }))
