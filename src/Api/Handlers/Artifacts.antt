-- ===== src/Api/Handlers/Artifacts.antt =====
-- The handler of crates/hub-api/src/handlers.rs that serves artifacts and signatures.
pub mod Laws
use agentenv_skills_hub.Api.Handlers.Fixture.{fixture_signature, fixture_tarball_bytes}
use agentenv_skills_hub.Api.State.{fetch_verified}
use agentenv_skills_hub.Index.Queries.{public_version_by_name}
use agentenv_skills_hub.Core.Model.{ArtifactPointer, SkillVersionRecord}
use agentenv_skills_hub.Api.State.App.{PgHubRepository}
use agentenv_skills_hub.Api.Handlers.{from, ApiResult, artifact_version}
use agentenv_skills_hub.Index.Tables.{Db}
use agentenv_skills_hub.Api.Handlers.Reads.{Server}
use agentenv_skills_hub.Common.Text.{strip_suffix, text, Text}
use agentenv_skills_hub.Common.{
  ◌++◌, map_err, is_some, Option, ℕ, Bool, List, ok, err, none, some, ◌>>=◌, ◌>>◌, [], ◌∷◌,
  if◌then◌else◌,
}

pub data Response : Type 0 where
  not_found : Response
  plain : Text → Response
  content : (content_type : Text) → (body : List ℕ) → Response

abbrev ends_with : Text → Text → Bool
ends_with suffix s = is_some (strip_suffix suffix s)

module _ {F32 : Type 0} (server : Server F32) (db : Db) where
  abbrev signature_line : Option Text → Response
  signature_line none = not_found
  signature_line (some signature) = plain (signature ++ 10 ∷ [])

  abbrev pub pointer_of : SkillVersionRecord → ArtifactPointer
  pointer_of stored = record {
    url = stored.artifact_url;
    media_type = stored.artifact_media_type;
    digest = stored.digest;
  }

  unfoldable pub artifact_bytes : SkillVersionRecord → ApiResult Response
  artifact_bytes stored = do
    body ←
        map_err from (fetch_verified server.runtime server.state.artifact_store (pointer_of stored))
    ok (content stored.artifact_media_type body)

  abbrev versioned : PgHubRepository → Text → Option (Text × Bool) → ApiResult Response
  versioned repository name none = ok not_found
  versioned repository name (some (version, signature)) = do
    stored ← map_err from (
        public_version_by_name server.runtime.crates server.arrange repository.session db name
          version)
    if signature then ok (signature_line stored.signature_ed25519) else artifact_bytes stored

  unfoldable pub db_artifact_response : PgHubRepository → Text → Text → ApiResult Response
  unfolding artifact_version artifact_bytes
  db_artifact_response repository name artifact =
      versioned repository name (artifact_version artifact)

  abbrev from_fixture : Text → ApiResult Response
  from_fixture artifact =
      if ends_with (text ".tar.zst") artifact
      then (do
        body ← fixture_tarball_bytes server.fixtures
        ok (content (text "application/octet-stream") body))
      else if ends_with (text ".tar.zst.sig") artifact
      then ok (plain fixture_signature)
      else ok not_found

  abbrev response_of : Option PgHubRepository → Text → Text → ApiResult Response
  response_of (some repository) name artifact = db_artifact_response repository name artifact
  response_of none name artifact = from_fixture artifact

  unfoldable pub fixture_artifact : Text → Text → ApiResult Response
  unfolding db_artifact_response fixture_tarball_bytes strip_suffix
  fixture_artifact name artifact = response_of server.state.repository name artifact
