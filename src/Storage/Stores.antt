-- ===== src/Storage/Stores.antt =====
-- crates/hub-storage/src/file.rs, s3.rs and oci.rs. An HTTP exchange (`send`, `error_for_status` and
-- reading the body) is one call that answers or fails with a message.
use agentenv_skills_hub.Core.Crates.{Url, Crates}
use agentenv_skills_hub.Common.Text.{
  text_eq, text, trim_end, contains_char, Text, trim_start, rsplit_once,
}
use agentenv_skills_hub.Common.{
  map, ◌==◌, ◌∷◌, false, ℕ, Bool, not, ◌||◌, Option, none, some, List, ◌++◌, Result, ok, err,
  map_err, ok_or, reject_if, ◌>>=◌, ◌>>◌, find, is_empty, is_some, if◌then◌else◌,
}
use agentenv_skills_hub.Storage.{
  client, verify_sha256_digest, read_artifact, fetch, parse_artifact_pointer, StorageResult,
  invalid_pointer, StorageError,
}

-- What serde reads of an image manifest.
pub record OciLayer : Type 0 where
  pub digest : Text

pub record OciManifest : Type 0 where
  pub layers : List OciLayer

pub record OciImage : Type 0 where
  pub repo : Text
  pub tag : Text

-- The world that the stores reach: the file system, the network, and the crates' functions on URLs
-- and bytes. `get_manifest` also reads the JSON of a manifest.
pub record Outside : Type 0 where
  pub to_file_path : Url → Option Text
  pub read : Text → Result Text (List ℕ)
  pub get_bytes : Url → Result Text (List ℕ)
  pub get_manifest : Url → Result Text OciManifest
  pub set_path : Url → Text → Url
  pub sha256 : List ℕ → List ℕ

unfoldable pub trim_start_slashes : Text → Text
unfolding trim_start
trim_start_slashes path = trim_start (λ c. c == b'/') path

unfoldable pub trim_end_slashes : Text → Text
unfolding trim_end
trim_end_slashes path = trim_end (λ c. c == b'/') path

abbrev text_option_eq : Option Text → Text → Bool
text_option_eq none t = false
text_option_eq (some s) t = text_eq s t

abbrev pub split_pair : StorageError → Option (Text × Text) → StorageResult OciImage
split_pair e none = err e
split_pair e (some (repo, tag)) =
    if is_empty repo || is_empty tag then err e else ok (record { repo = repo; tag = tag })

unfoldable pub oci_image : Text → Url → StorageResult OciImage
unfolding trim_start_slashes rsplit_once
oci_image pointer url =
    split_pair (invalid_pointer pointer (text "OCI artifact pointer path must include repo:tag"))
      (rsplit_once b':' (trim_start_slashes url.path))

unfoldable pub first_layer_digest : Text → OciManifest → Text → StorageResult Text
unfolding find contains_char
first_layer_digest pointer manifest expected_digest = do
  digest ←
      ok_or
        (invalid_pointer pointer (text "OCI manifest does not include the expected layer digest"))
        (find (λ digest. text_eq digest expected_digest)
          (map (λ layer. layer.digest) manifest.layers))
  reject_if (contains_char b'/' digest || contains_char b'?' digest || contains_char b'#' digest)
      (invalid_pointer pointer (text "OCI layer digest contains invalid URL characters"))
  ok digest

module _ (crates : Crates) (outside : Outside) where
  unfoldable pub endpoint_url : Url → Text → Url
  unfolding trim_end_slashes
  endpoint_url base suffix = outside.set_path base (trim_end_slashes base.path ++ (b'/' ∷ suffix))

  abbrev wrong_scheme : Text → Text → Url → StorageError
  wrong_scheme store pointer url =
      invalid_pointer pointer
        (store ++ (text " artifact store cannot fetch `" ++ (url.scheme ++ text "` artifacts")))

  abbrev pub file_path : Url → Text → StorageResult Text
  file_path url pointer =
      ok_or (invalid_pointer pointer (text "file artifact pointer is not a valid local path"))
        (outside.to_file_path url)

  unfoldable pub file_fetch : Text → Text → StorageResult (List ℕ)
  file_fetch pointer expected_digest = do
    url ← parse_artifact_pointer crates pointer
    reject_if (not (text_eq url.scheme (text "file"))) (wrong_scheme (text "file") pointer url)
    path ← file_path url pointer
    content ← map_err (read_artifact path) (outside.read path)
    verify_sha256_digest outside.sha256 content expected_digest
    ok content

  unfoldable pub s3_fetch : Option Url → Text → Text → StorageResult (List ℕ)
  unfolding trim_start_slashes
  s3_fetch endpoint pointer expected_digest = do
    endpoint ←
        ok_or (invalid_pointer pointer (text "S3 artifact endpoints are not configured")) endpoint
    url ← parse_artifact_pointer crates pointer
    reject_if (not (text_eq url.scheme (text "s3"))) (wrong_scheme (text "S3") pointer url)
    reject_if (is_some url.query || is_some url.fragment)
        (invalid_pointer pointer (text "S3 artifact pointer must not include query or fragment"))
    bucket ←
        ok_or (invalid_pointer pointer (text "S3 artifact pointer must include a bucket host"))
          url.host_str
    reject_if (is_empty (trim_start_slashes url.path))
        (invalid_pointer pointer (text "S3 artifact pointer must include an object key"))
    content ←
        map_err (fetch pointer) (
          outside.get_bytes
            (endpoint_url endpoint (bucket ++ (b'/' ∷ trim_start_slashes url.path))))
    verify_sha256_digest outside.sha256 content expected_digest
    ok content

  unfoldable pub oci_fetch : Option Text → Option Url → Text → Text → StorageResult (List ℕ)
  oci_fetch registry_host base_url pointer expected_digest = do
    registry_host ←
        ok_or (invalid_pointer pointer (text "OCI artifact endpoints are not configured"))
          registry_host
    base_url ←
        ok_or (invalid_pointer pointer (text "OCI artifact endpoints are not configured")) base_url
    url ← parse_artifact_pointer crates pointer
    reject_if (not (text_eq url.scheme (text "oci"))) (wrong_scheme (text "OCI") pointer url)
    reject_if (is_some url.query || is_some url.fragment)
        (invalid_pointer pointer (text "OCI artifact pointer must not include query or fragment"))
    reject_if (not (text_option_eq url.host_str registry_host)) (
        invalid_pointer pointer
          (text "OCI registry is not configured for `" ++ (pointer ++ text "`")))
    image ← oci_image pointer url
    manifest ← map_err (fetch pointer) (
        outside.get_manifest
          (endpoint_url base_url (text "v2/" ++ (image.repo ++ (text "/manifests/" ++ image.tag)))))
    layer_digest ← first_layer_digest pointer manifest expected_digest
    content ← map_err (fetch pointer) (
        outside.get_bytes
          (endpoint_url base_url (text "v2/" ++ (image.repo ++ (text "/blobs/" ++ layer_digest)))))
    verify_sha256_digest outside.sha256 content expected_digest
    ok content

-- The two stores that need a client. `unbuilt` is the message where it cannot be built.
pub record S3ArtifactStore : Type 0 where
  pub endpoint : Option Url

pub record OciArtifactStore : Type 0 where
  pub registry_host : Option Text
  pub base_url : Option Url

abbrev pub build_client : Option Text → StorageResult Unit
build_client none = ok tt
build_client (some source) = err (client source)

abbrev plain : Url → Url
plain url = record url { query = none; fragment = none }

module _ (crates : Crates) (unbuilt : Option Text) where
  unfoldable pub new_for_endpoint : Text → StorageResult S3ArtifactStore
  new_for_endpoint endpoint = do
    url ←
        map_err (λ source. invalid_pointer endpoint (text "invalid S3 endpoint: " ++ source))
          (crates.parse_url endpoint)
    build_client unbuilt
    ok (record { endpoint = some (plain url) })

  unfoldable pub new_for_registry : Text → Text → StorageResult OciArtifactStore
  new_for_registry registry_host base_url = do
    url ←
        map_err
          (λ source. invalid_pointer base_url (text "invalid OCI registry endpoint: " ++ source))
          (crates.parse_url base_url)
    build_client unbuilt
    ok (record { registry_host = some registry_host; base_url = some (plain url) })

-- `new` of each store, which then has no endpoint.
abbrev pub new_s3 : Option Text → StorageResult S3ArtifactStore
new_s3 unbuilt = do build_client unbuilt; ok (record { endpoint = none })

abbrev pub new_oci : Option Text → StorageResult OciArtifactStore
new_oci unbuilt = do build_client unbuilt; ok (record { registry_host = none; base_url = none })

pub record ArtifactStore : Type 0 where
  pub fetch_verified : Text → Text → StorageResult (List ℕ)

-- The implementations of the trait.
module _ (crates : Crates) (outside : Outside) where
  abbrev pub file_store : ArtifactStore
  file_store = record { fetch_verified = file_fetch crates outside }

  abbrev pub s3_store : S3ArtifactStore → ArtifactStore
  s3_store store = record { fetch_verified = s3_fetch crates outside store.endpoint }

  abbrev pub oci_store : OciArtifactStore → ArtifactStore
  oci_store store = record {
    fetch_verified = oci_fetch crates outside store.registry_host store.base_url;
  }
