-- ===== src/Webhooks.antt =====
-- crates/hub-webhooks. The crates serde_json and hmac are parameters.
pub mod Laws
use agentenv_skills_hub.Storage.Digest.{hex}
use agentenv_skills_hub.Common.Text.{bytes, Text, text}
use agentenv_skills_hub.Common.{
  ok_or, map_err, List, Option, Result, ℕ, ok, err, none, some, ◌>>=◌, ◌++◌, ◌^◌, min, ◌%◌,
}
use agentenv_skills_hub.Core.Model.{OffsetDateTime, Uuid, Value, null, string, object, field, end}

pub data WebhookError : Type 0 where
  render : (source : Text) → WebhookError
  invalid_signing_secret : WebhookError

abbrev pub WebhookResult : Type 0 → Type 0
WebhookResult A = Result WebhookError A

pub data WebhookKind : Type 0 where
  generic slack discord matrix : WebhookKind

pub record WebhookEvent : Type 0 where
  pub event_type : Text
  pub namespace : Text
  pub skill : Text
  pub version : Option Text
  pub actor : Option Text

pub record WebhookDelivery : Type 0 where
  pub id : Uuid
  pub kind : WebhookKind
  pub event : WebhookEvent
  pub payload : Text
  pub attempts : ℕ
  pub next_attempt_at : Option OffsetDateTime
  pub last_error : Option Text

-- The four texts that `format!` makes.
abbrev pub summary : WebhookEvent → Option Text → Option Text → Text
summary event (some version) (some actor) =
    event.event_type
    ++ (text ": "
        ++ (event.namespace
            ++ (text "/" ++ (event.skill ++ (text "@" ++ (version ++ (text " by " ++ actor)))))))
summary event (some version) none =
    event.event_type
    ++ (text ": " ++ (event.namespace ++ (text "/" ++ (event.skill ++ (text "@" ++ version)))))
summary event none (some actor) =
    event.event_type
    ++ (text ": " ++ (event.namespace ++ (text "/" ++ (event.skill ++ (text " by " ++ actor)))))
summary event none none =
    event.event_type ++ (text ": " ++ (event.namespace ++ (text "/" ++ event.skill)))

unfoldable pub event_summary : WebhookEvent → Text
event_summary event = summary event event.version event.actor

abbrev optional : Option Text → Value
optional none = null
optional (some s) = string s

unfoldable pub payload : WebhookKind → WebhookEvent → Value
unfolding event_summary
payload generic event = object (
    field (text "event") (string event.event_type) (
      field (text "namespace") (string event.namespace) (
        field (text "skill") (string event.skill) (
          field (text "version") (optional event.version)
            (field (text "actor") (optional event.actor) end)))))
payload slack event = object (field (text "text") (string (event_summary event)) end)
payload discord event = object (field (text "content") (string (event_summary event)) end)
payload matrix event = object (
    field (text "msgtype") (string (text "m.notice"))
      (field (text "body") (string (event_summary event)) end))

module _ (to_string : Value → Result Text Text) where
  unfoldable pub render_payload : WebhookKind → WebhookEvent → WebhookResult Text
  unfolding payload
  render_payload kind event = map_err render (to_string (payload kind event))

-- A secret as the key of a MAC, and the MAC of bytes.
pub record Hmac : Type 1 where
  pub Key : Type 0
  pub new_from_slice : List ℕ → Option Key
  pub finalize : Key → List ℕ → List ℕ

module _ (hmac : Hmac) where
  unfoldable pub sign_payload : Text → List ℕ → WebhookResult Text
  unfolding bytes hex
  sign_payload secret payload = do
    mac ← ok_or invalid_signing_secret (hmac.new_from_slice (bytes secret))
    ok (text "sha256=" ++ hex (hmac.finalize mac payload))

-- The delay in seconds, a `u64`.
unfoldable pub retry_delay : ℕ → ℕ
retry_delay attempts = 2 ^ min attempts 6 % 2 ^ 64
