-- ===== src/Tests/Fixtures.antt =====
-- Concrete parsers, services and requests.
use agentenv_skills_hub.Common.{
  all, any, Option, none, some, List, [], ◌∷◌, Result, ok, err, ◌++◌, false, Bool, ℕ, is_empty,
  if◌then◌else◌,
}
use agentenv_skills_hub.Common.Text.{
  contains_char, split, bytes, text_eq, strip_prefix, starts_with, is_ascii_alphabetic,
  is_ascii_hexdigit, Text, text, split_once,
}
use agentenv_skills_hub.Core.Auth.{
  has_scope, has_role, can_publish, can_yank, can_manage_webhooks, can_read, AuthContext,
}
use agentenv_skills_hub.Core.Auth.Roles.{granted}
use agentenv_skills_hub.Core.FilePath.{components, push}
use agentenv_skills_hub.Core.Service.{
  has_signature, authenticated_subject, publish, yank, HubRepository, HubService, WebhookEvent,
  WebhookQueue,
}
use agentenv_skills_hub.Core.Service.Request.{validate_publish_request}
use agentenv_skills_hub.Core.Validation.{
  validate_skill_path, has_windows_drive_prefix, validate_namespace, validate_skill_name,
  is_sha256_hex, validate_digest, validate_version, validate_artifact_url,
}
use agentenv_skills_hub.Core.Validation.Paths.{normal_parts, checked_path}
use agentenv_skills_hub.Common.Order.{text_cmp}
use agentenv_skills_hub.Core.Auth
use agentenv_skills_hub.Core.Crates.{Url, Crates}
use agentenv_skills_hub.Core.Error.{HubError}
use agentenv_skills_hub.Core.Model.{
  PublishSkillRequest, SkillVersionRecord, NamespaceRole, publisher, reader,
}

-- A URL is a scheme and a path, a version any text that is not empty.
abbrev url_of : Option (Text × Text) → Result Text Url
url_of none = err (text "relative URL without a base")
url_of (some (s, p)) = ok (record {
  scheme = s;
  username = [];
  password = none;
  host_str = none;
  path = p;
  query = none;
  fragment = none;
})

abbrev pub crates : Crates
crates = record {
  Version = Text;
  parse_version = λ v. if is_empty v then err (text "empty string") else ok v;
  version_cmp = text_cmp;
  parse_url = λ u. url_of (split_once b':' u);
}

abbrev pub file_url : Url
file_url = record {
  scheme = text "file";
  username = [];
  password = none;
  host_str = none;
  path = text "///x";
  query = none;
  fragment = none;
}

abbrev pub hex64 : Text
hex64 = text "e3b0c44298fc1c149afbf4c8996fb92427ae41e4649b934ca495991b7852b855"

abbrev pub request : PublishSkillRequest
request = record {
  manifest = record {
    name = text "code-review";
    version = text "1.2.0";
    description = some (text "Review code");
    entry = text "SKILL.md";
    files = text "docs//./a.md" ∷ [];
  };
  artifact = record {
    url = text "file:///srv/a.tar.zst";
    media_type = text "application/zstd";
    digest = text "sha256:" ++ hex64;
  };
  signature_ed25519 = some (text "aa");
  public_key_ed25519 = some (text "bb");
  sigstore_bundle = none;
}

abbrev pub role_pairs : List (Text × NamespaceRole)
role_pairs = (text "acme", reader) ∷ (text "acme", publisher) ∷ []

abbrev pub publisher_auth : AuthContext
publisher_auth = Auth.new (text "ann") (text "skills:publish" ∷ text "skills:yank" ∷ []) role_pairs

abbrev pub stored_record : SkillVersionRecord
stored_record = record {
  id = 1;
  namespace = text "acme";
  name = text "code-review";
  version = text "1.2.0";
  description = some (text "Review code");
  digest = text "sha256:" ++ hex64;
  artifact_url = text "file:///srv/a.tar.zst";
  artifact_media_type = text "application/zstd";
  signature_ed25519 = some (text "aa");
  public_key_ed25519 = some (text "bb");
  yanked_at = none;
  yank_reason = none;
  created_at = 5;
}

-- A repository that counts its inserts, and a queue that is a list or is broken.
abbrev pub counting_repo : HubRepository ℕ
counting_repo = record {
  insert_version = λ ns vis who req n. (ok stored_record, ℕ.suc n);
  yank_version = λ ns name version reason n. (ok tt, n);
}

abbrev pub list_queue : Bool → WebhookQueue (List WebhookEvent)
list_queue works = record {
  enqueue = λ event events.
      if works then (ok tt, event ∷ events) else (err (HubError.database (text "down")), events);
}

abbrev pub service : Bool → HubService ℕ (List WebhookEvent)
service works = record {
  repo = counting_repo;
  artifact_store = record { verify_artifact = λ a. ok tt };
  trust_verifier = record { verify_trust = λ r. ok tt };
  webhook_queue = list_queue works;
  allow_unsigned = false;
}

-- Unfolds the code of hub-core and what it calls.
unfoldable pub core_code : Unit {0}
unfolding split_once text_cmp contains_char split bytes text_eq strip_prefix starts_with
    is_ascii_alphabetic is_ascii_hexdigit all any components push normal_parts validate_skill_path
    checked_path has_windows_drive_prefix validate_namespace validate_skill_name is_sha256_hex
    validate_digest validate_version validate_artifact_url validate_publish_request has_scope
    has_role Auth.new can_publish can_yank can_manage_webhooks can_read granted has_signature
    authenticated_subject publish yank
core_code = tt
