-- ===== src/Core/Crates.antt =====
-- What the program takes from the crates `semver` and `url`.
use Prim.Native.Nat.{Ordering}
use agentenv_skills_hub.Common.{Result, Option}
use agentenv_skills_hub.Common.Text.{Text}
use agentenv_skills_hub.Common.Order.{IsOrder}

-- A `url::Url`, by what its accessors return.
pub record Url : Type 0 where
  pub scheme : Text
  pub username : Text
  pub password : Option Text
  pub host_str : Option Text
  pub path : Text
  pub query : Option Text
  pub fragment : Option Text

-- The parsers, with the message of the error where they fail, and `Ord for Version`.
pub record Crates : Type 1 where
  pub Version : Type 0
  pub parse_version : Text → Result Text Version
  pub version_cmp : Version → Version → Ordering
  pub parse_url : Text → Result Text Url

-- Versions are totally ordered, as the crate `semver` documents for its `Ord`.
abbrev pub HasVersionOrder : Crates → Type 0
HasVersionOrder crates = IsOrder crates.version_cmp
