-- ===== src/Core/Service/Request.antt =====
-- `validate_publish_request` of crates/hub-core/src/service.rs.
use agentenv_skills_hub.Common.{refl, ◌↔◌, List, [], ◌∷◌, ok, ◌>>◌, ◌≡◌, All, >>=-eq-ok}
use agentenv_skills_hub.Common.Text.{Text}
use agentenv_skills_hub.Core.Crates.{Crates, Url}
use agentenv_skills_hub.Core.Error.{HubResult}
use agentenv_skills_hub.Core.Model.{PublishSkillRequest}
use agentenv_skills_hub.Core.Validation.{
  validate_namespace, validate_skill_name, validate_version, validate_digest, validate_artifact_url,
  validate_skill_path,
}

-- The `for` loop over the manifest's files.
unfoldable pub validate_files : List Text → HubResult Unit
validate_files [] = ok tt
validate_files (file ∷ files) = do validate_skill_path file; validate_files files

unfoldable pub validate_publish_request : Crates → Text → PublishSkillRequest → HubResult Unit
unfolding validate_files
validate_publish_request crates namespace request = do
  validate_namespace namespace
  validate_skill_name request.manifest.name
  validate_version crates request.manifest.version
  validate_digest request.artifact.digest
  validate_artifact_url crates request.artifact.url
  validate_skill_path request.manifest.entry
  validate_files request.manifest.files

-- Every part of a request passes its own test.
pub record IsValidRequest (crates : Crates) (namespace : Text) (request : PublishSkillRequest)
    : Type 0 where
  pub namespace_ok : validate_namespace namespace ≡ ok tt
  pub name_ok : validate_skill_name request.manifest.name ≡ ok tt
  pub version_ok : (v : crates.Version) × (validate_version crates request.manifest.version ≡ ok v)
  pub digest_ok : validate_digest request.artifact.digest ≡ ok tt
  pub url_ok : (u : Url) × (validate_artifact_url crates request.artifact.url ≡ ok u)
  pub entry_ok : (p : Text) × (validate_skill_path request.manifest.entry ≡ ok p)
  pub files_ok : All (λ file. (p : Text) × (validate_skill_path file ≡ ok p)) request.manifest.files

validate_files-All :
    (files : List Text)
    → validate_files files ≡ ok tt
    → All (λ file. (p : Text) × (validate_skill_path file ≡ ok p)) files
unfolding validate_files
validate_files-All [] h = tt
validate_files-All (file ∷ files) h =
    let (p, e, rest) = >>=-eq-ok _ _ h in ((p, e), validate_files-All files rest)

pub validate_publish_request-IsValidRequest :
    (crates : Crates) (namespace : Text) (request : PublishSkillRequest)
    → validate_publish_request crates namespace request ≡ ok tt
    → IsValidRequest crates namespace request
unfolding validate_publish_request
validate_publish_request-IsValidRequest crates namespace request h =
    let (_, a, h1) = >>=-eq-ok _ _ h in
    let (_, b, h2) = >>=-eq-ok _ _ h1 in
    let (v, c, h3) = >>=-eq-ok _ _ h2 in
    let (_, d, h4) = >>=-eq-ok _ _ h3 in
    let (u, e, h5) = >>=-eq-ok _ _ h4 in
    let (p, f, h6) = >>=-eq-ok _ _ h5 in
    record {
      namespace_ok = a;
      name_ok = b;
      version_ok = (v, c);
      digest_ok = d;
      url_ok = (u, e);
      entry_ok = (p, f);
      files_ok = validate_files-All request.manifest.files h6;
    }

validate_files_of_All :
    (files : List Text)
    → All (λ file. (p : Text) × (validate_skill_path file ≡ ok p)) files
    → validate_files files ≡ ok tt
unfolding validate_files
validate_files_of_All [] h = refl
validate_files_of_All (file ∷ files) h = rw h.0.1 (validate_files_of_All files h.1)

-- A publish request is valid exactly if its namespace, name, version, digest, URL, entry path and
-- every file path pass their tests.
pub validate_publish_request_iff :
    (crates : Crates) (namespace : Text) (request : PublishSkillRequest)
    → (validate_publish_request crates namespace request ≡ ok tt)
      ↔ IsValidRequest crates namespace request
unfolding validate_publish_request
validate_publish_request_iff crates namespace request = (
  validate_publish_request-IsValidRequest crates namespace request,
  λ r. rw r.namespace_ok (
      rw r.name_ok (
        rw r.version_ok.1 (
          rw r.digest_ok (
            rw r.url_ok.1
              (rw r.entry_ok.1 (validate_files_of_All request.manifest.files r.files_ok)))))),
)
