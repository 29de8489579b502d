-- ===== src/Transport/Enrollment/Retry.antt =====
-- handleEnrollment of transport/http/enrollment.go, repeated with the same token.
use specification_enhancemen.Prelude.{
  ℕ, ◌+◌, ◌≤◌, String, true, none, some, All, ◌≡◌, ◌≢◌, ok, ◌==◌, ◌∙◌, ap, sym, str_eq→≡,
}
use specification_enhancemen.Store.{EnrollmentToken, Db}
use specification_enhancemen.Identity.{Service, Call}
use specification_enhancemen.Identity.Enrollment.Tokens.{enroll-SameTokens}
use specification_enhancemen.Bootstrap.{EnrollmentResponse, Registry, lookup_validator, replay}
use specification_enhancemen.Bootstrap.EnrollmentToken.{
  csr_pub_key_fingerprint, check_replay, validate, commit, effective_retry_window, token_validator,
}
use specification_enhancemen.Bootstrap.EnrollmentToken.Retry.{
  validate_credential-ok, validate-pending, commit-validate,
}
use specification_enhancemen.Transport.{enrolled}
use specification_enhancemen.Transport.Enrollment.{
  svid_profile_uri_x509_v1, EnrollmentRequest, enrollment_response, enroll_with, handle_enrollment,
}
use specification_enhancemen.Transport.Enrollment.FirstRequest.{
  first_request, commit-recorded, profile_set, result_of, handle_enrollment-enroll_with,
  handle_enrollment-profile, enroll_with-replays,
}

-- A request with an enrollment token that got an SVID, and for which no outcome was kept before, gets
-- the same answer when it is repeated before the end of the retry window, and the repetition changes
-- no table. The tokens have identifiers, and the key of the request has a fingerprint.
pub handle_enrollment-handle_enrollment :
    (s : Service) (c later : Call) (registry : Registry) (window : ℕ) (req : EnrollmentRequest)
    (fp : String) (response : EnrollmentResponse) (status_code : ℕ) (db db' : Db)
    → lookup_validator req.bootstrap_credential.method registry
      ≡ some (token_validator s.platform window)
    → check_replay s.platform c.now req.bootstrap_credential req.csr req.svid_profile_uri db
      ≡ ok none
    → csr_pub_key_fingerprint s.platform req.csr ≡ some fp
    → fp ≢ ""
    → All (λ (t : EnrollmentToken). t.token_id ≢ "") db.enrollment_tokens
    → handle_enrollment s c registry (some req) db ≡ (enrolled response status_code, db')
    → later.now ≤ c.now + effective_retry_window window
    → handle_enrollment s later registry (some req) db' ≡ (enrolled response status_code, db')
unfolding handle_enrollment enrollment_response
handle_enrollment-handle_enrollment s c later registry window req fp response status_code db db'
      method fresh printed inked named first early =
    let p = s.platform in
    let cred = req.bootstrap_credential in
    let profile : (req.svid_profile_uri == svid_profile_uri_x509_v1) ≡ true =
      handle_enrollment-profile s c registry req response status_code db db' first in
    let same_profile = str_eq→≡ req.svid_profile_uri svid_profile_uri_x509_v1 profile in
    let answered : enroll_with s c (token_validator p window) req db
        ≡ (enrolled response status_code, db') =
      sym (
        handle_enrollment-enroll_with s c registry (token_validator p window) req db method profile)
      ∙ first in
    let r = first_request s c window req response status_code db db' fresh answered in
    let served = enrollment_response p r.res in
    let (carried, claimed) =
      validate_credential-ok p c.now cred db r.db₁ r.vb r.ev (
        validate-pending p c.now cred req.csr req.svid_profile_uri db r.db₁ r.vb r.ev
          r.validated) in
    let done =
      commit-recorded p c.now (effective_retry_window window) cred req.csr req.svid_profile_uri fp
        served r.res.status_code r.res.ldi.uuid r.ev db r.db₁ r.db₂ carried claimed fresh
        (enroll-SameTokens s c r.vb r.csr req.replacement_authorization r.db₁ r.res r.db₂ r.issued)
        printed inked named profile_set in
    let committed : commit p c.now (effective_retry_window window) r.ev req.csr served
          r.res.status_code r.res.ldi.uuid r.db₂
        ≡ (ok tt, db') =
      result_of _ done r.committed in
    let kept =
      (enroll-SameTokens s c r.vb r.csr req.replacement_authorization r.db₁ r.res r.db₂
        r.issued).tokens in
    let again =
      commit-validate p c.now c.now later.now (effective_retry_window window) cred req.csr
        req.svid_profile_uri r.vb r.ev served r.res.status_code r.res.ldi.uuid db r.db₁ r.db₂ db'
        r.validated kept committed early in
    let replayed : validate p later.now cred req.csr req.svid_profile_uri db'
        ≡ (ok (replay (record { response = served; status_code = r.res.status_code })), db') =
      ap (λ u. validate p later.now cred req.csr u db') same_profile ∙ again in
    rw
      (
        handle_enrollment-enroll_with s later registry (token_validator p window) req db' method
            profile,
        r.answered,
        r.coded,
      )
      (enroll_with-replays s later window req _ db' db' replayed)
