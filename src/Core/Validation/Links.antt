-- ===== src/Core/Validation/Links.antt =====
-- Which artifact URLs and digests are accepted.
use agentenv_skills_hub.Common.{
  ◌≡◌, ◌≢◌, if◌then◌else◌, Bool-cases, >>=-eq-ok, map_err-eq-ok, reject_if-eq-ok, ◌↔◌, ◌⊎◌, inl,
  inr, refl, true, false, none, Result, ok, err, arith, [],
}
use agentenv_skills_hub.Common.Text.{Text, text}
use agentenv_skills_hub.Common.Text.Laws.{text_eq_iff}
use agentenv_skills_hub.Core.Crates.{Url, Crates}
use agentenv_skills_hub.Core.Error.{HubError}
use agentenv_skills_hub.Core.Validation.{validate_artifact_url, has_user_info, is_supported_scheme}

-- A URL without user info, of one of the three storage schemes.
pub record IsArtifactUrl (url : Url) : Type 0 where
  pub no_username : url.username ≡ []
  pub no_password : url.password ≡ none
  pub scheme : (url.scheme ≡ text "oci") ⊎ (url.scheme ≡ text "s3") ⊎ (url.scheme ≡ text "file")

pub supported_iff :
    (s : Text)
    → (is_supported_scheme s ≡ true) ↔ ((s ≡ text "oci") ⊎ (s ≡ text "s3") ⊎ (s ≡ text "file"))
supported_iff s =
    ground
      (arith, text_eq_iff s (text "oci"), text_eq_iff s (text "s3"), text_eq_iff s (text "file"))

pub user_info_iff :
    (url : Url) → (has_user_info url ≡ false) ↔ ((url.username ≡ []) × (url.password ≡ none))
user_info_iff url = (λ e. (ground arith, ground arith), λ h. ground arith)

not_ok : (e : HubError) (v : Url) → ◌≢◌ {A = Result HubError Url} (err e) (ok v)
not_ok e v = λ p. cc

supported-eq-ok :
    (u : Url) (e : HubError) (v : Url)
    → (if is_supported_scheme u.scheme then ok u else err e) ≡ ok v
    → (is_supported_scheme u.scheme ≡ true) × (u ≡ v)
supported-eq-ok u e v h = elim (Bool-cases (is_supported_scheme u.scheme)) [
  | inl p ↦ (p, cc (rw p at h))
  | inr p ↦ absurd (not_ok e v (rw p at h))
]

module _ (crates : Crates) (value : Text) (url : Url) where
  -- An artifact URL is accepted, and returned as parsed, exactly if it parses to a URL without user
  -- info whose scheme is `oci`, `s3` or `file`.
  pub validate_artifact_url_iff :
      (validate_artifact_url crates value ≡ ok url)
      ↔ ((crates.parse_url value ≡ ok url) × IsArtifactUrl url)
  unfolding validate_artifact_url
  validate_artifact_url_iff = (
    λ e.
        let (parsed, p, e') = >>=-eq-ok _ _ e in
        let p' = map_err-eq-ok _ _ p in
        let (u, r, e'') = >>=-eq-ok _ _ e' in
        let clean = (user_info_iff parsed).0 (reject_if-eq-ok _ _ r) in
        let (known, same) = supported-eq-ok parsed _ url e'' in
        rw (← same) (
          p',
          record {
            no_username = clean.0;
            no_password = clean.1;
            scheme = (supported_iff parsed.scheme).0 known;
          },
        ),
    λ h. rw h.0 (
        rw ((user_info_iff url).1 (h.1.no_username, h.1.no_password))
          (rw ((supported_iff url.scheme).1 h.1.scheme) refl)),
  )
