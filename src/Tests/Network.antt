-- ===== src/Tests/Network.antt =====
-- The theorem about what the server reads of the network at a concrete endpoint.
use agentenv_skills_hub.Core.Service.{publish}
use agentenv_skills_hub.Storage.Confined.{AgreeAt}
use agentenv_skills_hub.Core.Crates.{Url}
use agentenv_skills_hub.Common.Text.{text, text_eq}
use agentenv_skills_hub.Api.State.{runtime_service, fetch_verified, RuntimeArtifactStore, Runtime}
use agentenv_skills_hub.Tests.Storage.{content, outside, parser_of}
use agentenv_skills_hub.Tests.Api
use agentenv_skills_hub.Tests.Api.{api_code, signed_request, empty_queue}
use agentenv_skills_hub.Tests.Fixtures.{file_url, publisher_auth}
use agentenv_skills_hub.Tests.Index.{calm_session, empty_db}
use agentenv_skills_hub.Core.Model.{public}
use agentenv_skills_hub.Api.State.Confined.{AgreesAtEndpoints, publish_confined, elsewhere}
use agentenv_skills_hub.Storage.Stores.{S3ArtifactStore, Outside}
use agentenv_skills_hub.Common.{false, ok, err, some, none, refl, ◌≡◌, if◌then◌else◌}

-- An object store behind https, and a network on which nothing else answers.
abbrev base_url : Url
base_url = record file_url {
  scheme = text "https";
  host_str = some (text "minio");
  path = text "/";
}

abbrev unplugged : Outside
unplugged = record outside {
  get_bytes = λ u. if text_eq u.scheme (text "https") then ok content else err (text "unplugged");
}

abbrev runtime : Runtime
runtime = record Api.runtime { crates = parser_of (text "s3") (text "/k") }

abbrev store : RuntimeArtifactStore
store = record { s3 = some (record { endpoint = some base_url }); oci = none }

at_base : AgreeAt outside unplugged base_url
unfolding text_eq
at_base = record { objects = λ url s h. rw s refl; manifests = λ url s h. refl }

unplugged-AgreesAtEndpoints : AgreesAtEndpoints runtime store unplugged
unplugged-AgreesAtEndpoints = record {
  files = record { paths = refl; reads = refl; digests = refl; set_paths = refl };
  s3 = λ s base e b. same_base base (b_of s base e b);
  oci = λ o base e b. absurd (cc);
}
  where
    same_base : (base : Url) → base_url ≡ base → AgreeAt outside unplugged base
    same_base base e = rw e at at_base

    b_of :
        (s : S3ArtifactStore) (base : Url)
        → store.s3 ≡ some s
        → s.endpoint ≡ some base
        → base_url ≡ base
    b_of s base e b = cc

publish_confined_example :
    (fetch_verified runtime store signed_request.artifact
      ≡ fetch_verified (elsewhere runtime store unplugged) store signed_request.artifact)
    × (publish runtime.crates
          (runtime_service runtime calm_session store false)
          publisher_auth
          (text "acme")
          public
          signed_request
          (empty_db, empty_queue)
        ≡ publish runtime.crates
            (runtime_service (elsewhere runtime store unplugged) calm_session store false)
            publisher_auth
            (text "acme")
            public
            signed_request
            (empty_db, empty_queue))
publish_confined_example =
    publish_confined runtime store unplugged (λ url path. (refl, refl)) unplugged-AgreesAtEndpoints
      calm_session false publisher_auth (text "acme") public signed_request (empty_db, empty_queue)

-- The object is fetched.
fetch_run : fetch_verified runtime store signed_request.artifact ≡ ok content
unfolding api_code
fetch_run = refl
