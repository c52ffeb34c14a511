-- ===== src/Tests/Core.antt =====
-- The theorems about hub-core at concrete inputs.
use agentenv_skills_hub.Common.{◌≡◌, refl, true, false, [], ◌∷◌, ok, err, All, arith, List}
use agentenv_skills_hub.Common.Text.{Text, text, split, is_ascii_alphabetic}
use agentenv_skills_hub.Core.Auth
use agentenv_skills_hub.Core.Auth.{
  anonymous, can_publish, can_yank, can_manage_webhooks, can_read, has_role,
}
use agentenv_skills_hub.Core.Auth.Access.{access_decisions, decide}
use agentenv_skills_hub.Core.Error.{HubError}
use agentenv_skills_hub.Core.Model.{reader, public, private, publisher, admin}
use agentenv_skills_hub.Core.Service.{WebhookEvent, published, publish}
use agentenv_skills_hub.Core.Service.Publish.{publish-ok, IsAdmitted}
use agentenv_skills_hub.Core.Validation.{
  validate_namespace, validate_skill_name, validate_skill_path, has_windows_drive_prefix,
}
use agentenv_skills_hub.Core.Validation.Paths.{
  checked_path, validate_skill_path-eq-checked_path, normal_parts,
}
use agentenv_skills_hub.Core.Validation.Safety.{
  IsSafePart, validate_skill_path-IsSafePart, drive_prefix_survives,
}
use agentenv_skills_hub.Tests.Fixtures.{
  core_code, crates, request, service, stored_record, role_pairs, publisher_auth,
}

validate_skill_path-eq-checked_path_example :
    validate_skill_path (text "docs//./a.md") ≡ checked_path (text "docs//./a.md")
validate_skill_path-eq-checked_path_example =
    validate_skill_path-eq-checked_path (text "docs//./a.md")

validate_skill_path_run : validate_skill_path (text "docs//./a.md") ≡ ok (text "docs/a.md")
unfolding core_code
validate_skill_path_run = refl

validate_skill_path-IsSafePart_example :
    (split b'/' (text "docs/a.md") ≡ normal_parts (split b'/' (text "docs//./a.md")))
    × All IsSafePart (split b'/' (text "docs/a.md"))
validate_skill_path-IsSafePart_example =
    validate_skill_path-IsSafePart (text "docs//./a.md") (text "docs/a.md") validate_skill_path_run

letter_c : is_ascii_alphabetic b'C' ≡ true
unfolding is_ascii_alphabetic
letter_c = refl

drive_prefix_survives_example :
    (validate_skill_path (text "./C:x") ≡ ok (text "C:x"))
    × (has_windows_drive_prefix (text "C:x") ≡ true)
drive_prefix_survives_example =
    drive_prefix_survives b'C' (text "x") letter_c (omega arith) (omega arith)

skill_name_run : validate_skill_name (text "a_b") ≡ ok tt
unfolding core_code
skill_name_run = refl

namespace_run : validate_namespace (text "a_b") ≡ ok tt
unfolding core_code
namespace_run = refl

abbrev only_publish : List Text
only_publish = text "skills:publish" ∷ []

access_decisions_example :
    (can_publish (Auth.new (text "ann") only_publish role_pairs) (text "acme")
      ≡ decide
          (text "skills:publish")
          (text "publish")
          (publisher ∷ admin ∷ [])
          (text "acme")
          only_publish
          role_pairs)
    × (can_yank (Auth.new (text "ann") only_publish role_pairs) (text "acme")
        ≡ decide
            (text "skills:yank")
            (text "yank")
            (publisher ∷ admin ∷ [])
            (text "acme")
            only_publish
            role_pairs)
    × (can_manage_webhooks (Auth.new (text "ann") only_publish role_pairs) (text "acme")
        ≡ decide
            (text "webhooks:admin")
            (text "manage_webhooks")
            (admin ∷ [])
            (text "acme")
            only_publish
            role_pairs)
    × (can_read (Auth.new (text "ann") only_publish role_pairs) private (text "acme")
        ≡ decide
            (text "skills:read")
            (text "read")
            (reader ∷ publisher ∷ admin ∷ [])
            (text "acme")
            only_publish
            role_pairs)
access_decisions_example =
    access_decisions (text "acme") (text "ann") only_publish role_pairs private

abbrev queued : List WebhookEvent
queued = published (text "acme") (text "ann") stored_record ∷ []

publish_run :
    publish crates (service true) publisher_auth (text "acme") public request (0, [])
    ≡ (ok stored_record, (1, queued))
unfolding core_code
publish_run = refl

publish-ok_example :
    (subject : Text) × IsAdmitted crates
      (service true)
      publisher_auth
      (text "acme")
      public
      request
      subject
    × ((service true).repo.insert_version (text "acme") public subject request 0
        ≡ (ok stored_record, 1))
    × ((service true).webhook_queue.enqueue (published (text "acme") subject stored_record) []
        ≡ (ok tt, queued))
publish-ok_example =
    publish-ok crates (service true) publisher_auth (text "acme") public request 0 1 [] queued
      stored_record publish_run

broken_run :
    publish crates (service false) publisher_auth (text "acme") public request (0, [])
    ≡ (err (HubError.database (text "down")), (1, []))
unfolding core_code
broken_run = refl
