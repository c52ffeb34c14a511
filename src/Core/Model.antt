-- ===== src/Core/Model.antt =====
-- crates/hub-core/src/model.rs
use agentenv_skills_hub.Common.{ℕ, Bool, Option, List}
use agentenv_skills_hub.Common.Text.{Text}

pub data Visibility : Type 0 where
  public private unlisted : Visibility

pub data NamespaceRole : Type 0 where
  reader publisher admin : NamespaceRole

-- `serde_json::Value`; a number is kept as it is printed.
mutual
  pub data Value : Type 0 where
    null : Value
    bool : Bool → Value
    number : Text → Value
    string : Text → Value
    array : Values → Value
    object : Fields → Value

  pub data Values : Type 0 where
    nil : Values
    cons : Value → Values → Values

  pub data Fields : Type 0 where
    end : Fields
    field : Text → Value → Fields → Fields

-- `uuid::Uuid` as its 128-bit number, `time::OffsetDateTime` as the time since the epoch.
abbrev pub Uuid : Type 0
Uuid = ℕ

abbrev pub OffsetDateTime : Type 0
OffsetDateTime = ℕ

pub record SkillManifest : Type 0 where
  pub name : Text
  pub version : Text
  pub description : Option Text
  pub entry : Text
  pub files : List Text

pub record ArtifactPointer : Type 0 where
  pub url : Text
  pub media_type : Text
  pub digest : Text

pub record PublishSkillRequest : Type 0 where
  pub manifest : SkillManifest
  pub artifact : ArtifactPointer
  pub signature_ed25519 : Option Text
  pub public_key_ed25519 : Option Text
  pub sigstore_bundle : Option Value

pub record SkillVersionRecord : Type 0 where
  pub id : Uuid
  pub namespace : Text
  pub name : Text
  pub version : Text
  pub description : Option Text
  pub digest : Text
  pub artifact_url : Text
  pub artifact_media_type : Text
  pub signature_ed25519 : Option Text
  pub public_key_ed25519 : Option Text
  pub yanked_at : Option OffsetDateTime
  pub yank_reason : Option Text
  pub created_at : OffsetDateTime

pub record CompatibilitySkillHit : Type 0 where
  pub name : Text
  pub version : Text
  pub description : Option Text
  pub registry : Text
  pub digest : Option Text
  pub signature_ed25519 : Option Text
  pub public_key_ed25519 : Option Text

pub record CompatibilityIndex : Type 0 where
  pub skills : List CompatibilitySkillHit
