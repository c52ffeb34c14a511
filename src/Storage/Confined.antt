-- ===== src/Storage/Confined.antt =====
-- What the stores can read.
use agentenv_skills_hub.Storage.{parse_artifact_pointer}
use agentenv_skills_hub.Storage.Stores.{
  trim_start_slashes, first_layer_digest, oci_image, Outside, endpoint_url, file_fetch, s3_fetch,
  oci_fetch,
}
use agentenv_skills_hub.Core.Crates.{Url, Crates}
use agentenv_skills_hub.Common.Text.{text, Text}
use agentenv_skills_hub.Common.{
  ap, ◌∙◌, ◌++◌, Option-cases, Result-cases, ◌≡◌, Option, some, none, refl, inl, inr, ◌∷◌,
}

-- Two worlds with the same crates and the same files.
pub record HaveSameFiles (here there : Outside) : Type 0 where
  pub paths : here.to_file_path ≡ there.to_file_path
  pub reads : here.read ≡ there.read
  pub digests : here.sha256 ≡ there.sha256
  pub set_paths : here.set_path ≡ there.set_path

-- What the crate url documents of `set_path`: it changes the path, in which it resolves `..`, and
-- keeps scheme and host.
abbrev pub KeepsOrigin : Outside → Type 0
KeepsOrigin outside =
    (url : Url) (path : Text)
    → ((outside.set_path url path).scheme ≡ url.scheme)
      × ((outside.set_path url path).host_str ≡ url.host_str)

-- The two networks answer the same at every URL of this scheme and host, whatever its path.
pub record AgreeAt (here there : Outside) (base : Url) : Type 0 where
  pub objects :
      (url : Url)
      → url.scheme ≡ base.scheme
      → url.host_str ≡ base.host_str
      → here.get_bytes url ≡ there.get_bytes url
  pub manifests :
      (url : Url)
      → url.scheme ≡ base.scheme
      → url.host_str ≡ base.host_str
      → here.get_manifest url ≡ there.get_manifest url

module _ (crates : Crates) (here there : Outside) (keeps : KeepsOrigin here) where
  module _ (same : HaveSameFiles here there) (base : Url) (agree : AgreeAt here there base)
      (suffix : Text) where
    same_endpoint : endpoint_url crates here base suffix ≡ endpoint_url crates there base suffix
    unfolding endpoint_url
    same_endpoint = rw same.set_paths refl

    same_object :
        here.get_bytes (endpoint_url crates here base suffix)
        ≡ there.get_bytes (endpoint_url crates there base suffix)
    unfolding endpoint_url
    same_object =
        agree.objects (endpoint_url crates here base suffix) (keeps base _).0 (keeps base _).1
        ∙ ap there.get_bytes same_endpoint

    same_manifest :
        here.get_manifest (endpoint_url crates here base suffix)
        ≡ there.get_manifest (endpoint_url crates there base suffix)
    unfolding endpoint_url
    same_manifest =
        agree.manifests (endpoint_url crates here base suffix) (keeps base _).0 (keeps base _).1
        ∙ ap there.get_manifest same_endpoint

  module _ (same : HaveSameFiles here there) (pointer expected_digest : Text) where
    pub file_fetch_confined :
        file_fetch crates here pointer expected_digest
        ≡ file_fetch crates there pointer expected_digest
    unfolding file_fetch
    file_fetch_confined = rw (same.paths, same.reads, same.digests) refl

    pub s3_fetch_confined :
        (endpoint : Option Url)
        → ((base : Url) → endpoint ≡ some base → AgreeAt here there base)
        → s3_fetch crates here endpoint pointer expected_digest
          ≡ s3_fetch crates there endpoint pointer expected_digest
    unfolding s3_fetch
    s3_fetch_confined none agree = refl
    s3_fetch_confined (some base) agree =
        elim (Result-cases (parse_artifact_pointer crates pointer)) [
          | inr (error, e) ↦ rw e refl
          | inl (url, e) ↦ elim (Option-cases url.host_str) [
            | inl h ↦ rw (e, h) refl
            | inr (bucket, h) ↦
                rw
                  (
                    e,
                    h,
                    same_object same base (agree base refl)
                        (bucket ++ (b'/' ∷ trim_start_slashes url.path)),
                    same.digests,
                  )
                  refl
          ]
        ]

    pub oci_fetch_confined :
        (registry_host : Option Text) (base_url : Option Url)
        → ((base : Url) → base_url ≡ some base → AgreeAt here there base)
        → oci_fetch crates here registry_host base_url pointer expected_digest
          ≡ oci_fetch crates there registry_host base_url pointer expected_digest
    unfolding oci_fetch
    oci_fetch_confined none base_url agree = refl
    oci_fetch_confined (some host) none agree = refl
    oci_fetch_confined (some host) (some base) agree =
        elim (Result-cases (parse_artifact_pointer crates pointer)) [
          | inr (error, e) ↦ rw e refl
          | inl (url, e) ↦ elim (Result-cases (oci_image pointer url)) [
            | inr (error, i) ↦ rw (e, i) refl
            | inl (image, i) ↦
                let asked =
                  same_manifest same base (agree base refl)
                    (text "v2/" ++ (image.repo ++ (text "/manifests/" ++ image.tag))) in
                elim (Result-cases (
                  there.get_manifest (
                    endpoint_url crates there base
                      (text "v2/" ++ (image.repo ++ (text "/manifests/" ++ image.tag)))))) [
                        | inr (error, m) ↦ rw (e, i, asked, m) refl
                        | inl (manifest, m) ↦
                            elim (Result-cases
                              (first_layer_digest pointer manifest expected_digest)) [
                                | inr (error, l) ↦ rw (e, i, asked, m, l) refl
                                | inl (digest, l) ↦
                                    rw
                                      (
                                        e,
                                        i,
                                        asked,
                                        m,
                                        l,
                                        same_object same base (agree base refl) (
                                            text "v2/"
                                            ++ (image.repo ++ (text "/blobs/" ++ digest))),
                                        same.digests,
                                      )
                                      refl
                              ]
                      ]
          ]
        ]
