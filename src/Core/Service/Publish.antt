-- ===== src/Core/Service/Publish.antt =====
-- What `publish` has checked when it stores, and what it leaves behind when it fails.
use agentenv_skills_hub.Common.{
  refl, inr, ap, inl, ok_or-eq-ok, some, reject_if-eq-ok, true, false, >>=-eq-ok, ◌⊎◌, not, ◌&&◌,
  ◌≡◌, ok, err, reject_if, ◌>>◌, arith,
}
use agentenv_skills_hub.Common.State.{Run-cases, Run, continue, lift, pure}
use agentenv_skills_hub.Common.State
use agentenv_skills_hub.Common.Text.{Text, text}
use agentenv_skills_hub.Core.Auth.{AuthContext, can_publish}
use agentenv_skills_hub.Core.Crates.{Crates}
use agentenv_skills_hub.Core.Error.{HubError, HubResult, unsigned_artifact_rejected}
use agentenv_skills_hub.Core.Model.{PublishSkillRequest, SkillVersionRecord, Visibility}
use agentenv_skills_hub.Core.Service.{
  HubService, has_signature, authenticated_subject, published, publish, on_repo, on_queue,
}
use agentenv_skills_hub.Core.Service.Request.{
  validate_publish_request_iff, IsValidRequest, validate_publish_request,
}

module _ (crates : Crates) {R W : Type 0} (service : HubService R W) (auth : AuthContext)
    (namespace : Text) (visibility : Visibility) (request : PublishSkillRequest) where
  -- Everything that is checked before anything is written; the result is the publisher.
  unfoldable pub admission : HubResult Text
  admission = do
    can_publish auth namespace
    validate_publish_request crates namespace request
    reject_if (not service.allow_unsigned && not (has_signature request)) unsigned_artifact_rejected
    service.artifact_store.verify_artifact request.artifact
    service.trust_verifier.verify_trust request
    authenticated_subject auth (text "publish") namespace

  unfoldable pub store : Text → Run (R × W) HubError SkillVersionRecord
  store subject =
      State.◌>>=◌ (on_repo (service.repo.insert_version namespace visibility subject request))
        (λ stored.
          State.◌>>◌ (on_queue (service.webhook_queue.enqueue (published namespace subject stored)))
            (pure stored))

  pub publish-admission :
      (s : R × W)
      → publish crates service auth namespace visibility request s ≡ continue store (admission, s)
  unfolding publish admission store
  publish-admission s = ground arith

  -- What has been established before anything is stored for `subject`.
  pub record IsAdmitted (subject : Text) : Type 0 where
    pub allowed : can_publish auth namespace ≡ ok tt
    pub valid : IsValidRequest crates namespace request
    pub signed : (service.allow_unsigned ≡ true) ⊎ (has_signature request ≡ true)
    pub fetched : service.artifact_store.verify_artifact request.artifact ≡ ok tt
    pub trusted : service.trust_verifier.verify_trust request ≡ ok tt
    pub publisher : auth.subject ≡ some subject

  signed_of :
      not service.allow_unsigned && not (has_signature request) ≡ false
      → (service.allow_unsigned ≡ true) ⊎ (has_signature request ≡ true)
  signed_of h = ground arith

  pub admission-IsAdmitted : (subject : Text) → admission ≡ ok subject → IsAdmitted subject
  unfolding admission authenticated_subject
  admission-IsAdmitted subject h =
      let (_, a, h1) = >>=-eq-ok _ _ h in
      let (_, b, h2) = >>=-eq-ok _ _ h1 in
      let (_, c, h3) = >>=-eq-ok _ _ h2 in
      let (_, d, h4) = >>=-eq-ok _ _ h3 in
      let (_, e, h5) = >>=-eq-ok _ _ h4 in
      record {
        allowed = a;
        valid = (validate_publish_request_iff crates namespace request).0 b;
        signed = signed_of (reject_if-eq-ok _ _ c);
        fetched = d;
        trusted = e;
        publisher = ok_or-eq-ok _ _ h5;
      }

  pub admission_of_IsAdmitted : (subject : Text) → IsAdmitted subject → admission ≡ ok subject
  unfolding admission authenticated_subject
  admission_of_IsAdmitted subject a =
      let checked = (validate_publish_request_iff crates namespace request).1 a.valid in
      elim a.signed [
        | inl s ↦ rw (a.allowed, checked, s, a.fetched, a.trusted, a.publisher) refl
        | inr s ↦ rw (a.allowed, checked, s, a.fetched, a.trusted, a.publisher) (ground arith)
      ]

  store-ok :
      (subject : Text) (r r' : R) (w w' : W) (stored : SkillVersionRecord)
      → store subject (r, w) ≡ (ok stored, (r', w'))
      → (service.repo.insert_version namespace visibility subject request r ≡ (ok stored, r'))
        × (service.webhook_queue.enqueue (published namespace subject stored) w ≡ (ok tt, w'))
  unfolding store
  store-ok subject r r' w w' stored h = ground arith

  store-err :
      (subject : Text) (r r' : R) (w w' : W) (e : HubError)
      → store subject (r, w) ≡ (err e, (r', w'))
      → ((service.repo.insert_version namespace visibility subject request r ≡ (err e, r'))
          × (w' ≡ w))
        ⊎ ((stored : SkillVersionRecord) × (service.repo.insert_version namespace visibility subject
                request r
              ≡ (ok stored, r'))
            × (service.webhook_queue.enqueue (published namespace subject stored) w ≡ (err e, w')))
  unfolding store
  store-err subject r r' w w' e h =
      elim (Run-cases (service.repo.insert_version namespace visibility subject request r)) [
        | inl k ↦ inr (k.0, ground (arith, k.2), ground (arith, k.2))
        | inr k ↦ inl (ground (arith, k.2), ground (arith, k.2))
      ]

  admitted-ok :
      (r : R) (w : W) (stored : SkillVersionRecord) (s : R × W)
      → publish crates service auth namespace visibility request (r, w) ≡ (ok stored, s)
      → (subject : Text) × (admission ≡ ok subject) × (store subject (r, w) ≡ (ok stored, s))
  admitted-ok r w stored s h = ground (arith, publish-admission (r, w))

  admitted-err :
      (r : R) (w : W) (e : HubError) (s : R × W)
      → publish crates service auth namespace visibility request (r, w) ≡ (err e, s)
      → ((admission ≡ err e) × (s ≡ (r, w)))
        ⊎ ((subject : Text) × (admission ≡ ok subject) × (store subject (r, w) ≡ (err e, s)))
  admitted-err r w e s h = ground (arith, publish-admission (r, w))

  -- A publish that succeeds was permitted, valid, signed unless unsigned artifacts are allowed,
  -- fetched and trusted; it returns what the repository stored for the caller, and has queued the
  -- event of that record.
  pub publish-ok :
      (r r' : R) (w w' : W) (stored : SkillVersionRecord)
      → publish crates service auth namespace visibility request (r, w) ≡ (ok stored, (r', w'))
      → (subject : Text) × IsAdmitted subject
        × (service.repo.insert_version namespace visibility subject request r ≡ (ok stored, r'))
        × (service.webhook_queue.enqueue (published namespace subject stored) w ≡ (ok tt, w'))
  publish-ok r r' w w' stored h =
      let (subject, p, q) = admitted-ok r w stored (r', w') h in
      let (i, j) = store-ok subject r r' w w' stored q in
      (subject, admission-IsAdmitted subject p, i, j)

  -- A publish that fails either was not admitted, and left repository and queue as they were, or
  -- failed in the repository, before the queue was touched, or stored its record and failed to queue
  -- the event.
  pub publish-err :
      (r r' : R) (w w' : W) (e : HubError)
      → publish crates service auth namespace visibility request (r, w) ≡ (err e, (r', w'))
      → ((admission ≡ err e) × (r' ≡ r) × (w' ≡ w))
        ⊎ ((subject : Text) × (admission ≡ ok subject)
            × (((service.repo.insert_version namespace visibility subject request r ≡ (err e, r'))
                  × (w' ≡ w))
                ⊎ ((stored : SkillVersionRecord) × (service.repo.insert_version namespace visibility
                        subject request r
                      ≡ (ok stored, r'))
                    × (service.webhook_queue.enqueue (published namespace subject stored) w
                        ≡ (err e, w')))))
  publish-err r r' w w' e h = elim (admitted-err r w e (r', w') h) [
    | inl k ↦ inl (k.0, ap (λ s. s.0) k.1, ap (λ s. s.1) k.1)
    | inr k ↦ inr (k.0, k.1, store-err k.0 r r' w w' e k.2)
  ]
