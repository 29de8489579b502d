-- ===== src/Transport/Enrollment.antt =====
-- completed/miaf-poc/pkg/mis/transport/http/enrollment.go: POST /api/v1/identities.
pub mod FirstRequest
pub mod SpentToken
pub mod Retry
use specification_enhancemen.Prelude.{
  String, ◌==◌, not, Option, none, some, List, Result, ok, err, if◌then◌else◌, map,
}
use specification_enhancemen.Errors.{Err, CsrErr, BootstrapErr}
use specification_enhancemen.Platform.{Platform}
use specification_enhancemen.CsrParsing.{parse_csr}
use specification_enhancemen.Store.{Db}
use specification_enhancemen.Identity.{
  Service, Call, VerifiedBootstrap, ReplacementAuthorization, EnrollmentResult,
}
use specification_enhancemen.Identity.Enrollment.{enroll}
use specification_enhancemen.Bootstrap.{
  Credential, EnrollmentResponse, Validator, Registry, lookup_validator, replay, pending,
}
use specification_enhancemen.Transport.{
  Problem, about_blank, invalid_svid_request, invalid_bootstrap_proof, unsupported_bootstrap_method,
  unsupported_replacement_authorization_method, unsupported_svid_profile, spurious_replacement,
  replacement_refused, key_rotation_refused, invalid_enrollment_token, Reply, enrolled, refused,
}

abbrev pub svid_profile_uri_x509_v1 : String
svid_profile_uri_x509_v1 = "https://margo.org/profiles/spiffe/x509-svid/v1"

-- common.EnrollmentRequestDTO
pub record EnrollmentRequest : Type 0 where
  pub svid_profile_uri : String
  pub csr : String
  pub bootstrap_credential : Credential
  pub replacement_authorization : Option ReplacementAuthorization

-- writeBootstrapError
unfoldable pub bootstrap_problem : BootstrapErr → Problem
bootstrap_problem BootstrapErr.proof_rejected = invalid_bootstrap_proof
bootstrap_problem BootstrapErr.token_rejected = invalid_enrollment_token
bootstrap_problem BootstrapErr.other_failure = invalid_bootstrap_proof

-- writeCSRError
unfoldable pub csr_problem : CsrErr → Problem
csr_problem CsrErr.pem_armor = invalid_svid_request
csr_problem CsrErr.malformed = invalid_svid_request
csr_problem CsrErr.bad_signature = invalid_svid_request
csr_problem CsrErr.unsupported_key = unsupported_svid_profile
csr_problem CsrErr.unsupported_alg = unsupported_svid_profile

-- writeIdentityError
unfoldable pub identity_problem : Err → Problem
identity_problem Err.unsupported_replacement_method = unsupported_replacement_authorization_method
identity_problem Err.spurious_replacement_authorization = spurious_replacement
identity_problem Err.replacement_not_authorized = replacement_refused
identity_problem Err.key_rotation_not_permitted = key_rotation_refused
identity_problem Err.new_ldi_forbidden = about_blank 403
identity_problem Err.not_found = about_blank 500
identity_problem Err.constraint_failed = about_blank 500
identity_problem Err.bad_argument = about_blank 500
identity_problem Err.issuer_failed = about_blank 500
identity_problem Err.empty_chain = about_blank 500
identity_problem Err.malformed_leaf = about_blank 500
identity_problem Err.malformed_key = about_blank 500
identity_problem Err.signing_failed = about_blank 500

-- The response to a successful Enroll, with derChainToPEM
unfoldable pub enrollment_response : Platform → EnrollmentResult → EnrollmentResponse
enrollment_response p res = record {
  svid_profile_uri = svid_profile_uri_x509_v1;
  certificate_chain_pem = map p.encode_pem res.cert_chain_der;
}

-- handleEnrollment from the pending enrollment on
unfoldable pub enroll_pending :
    (s : Service)
    → Call
    → (v : Validator) → VerifiedBootstrap
    → v.Evidence
    → EnrollmentRequest
    → Db
    → Reply × Db
enroll_pending s c v vb ev req db = elim (parse_csr s.platform req.csr) [
  | err e ↦ (refused (csr_problem e), db)
  | ok csr ↦
      let (result, db₁) = enroll s c vb csr req.replacement_authorization db in
      elim result [
        | err e ↦ (refused (identity_problem e), db₁)
        | ok res ↦
            let response = enrollment_response s.platform res in
            (
              enrolled response res.status_code,
              v.commit c.now ev req.csr response res.status_code res.ldi.uuid db₁,
            )
      ]
]

-- handleEnrollment with the validator of the method
unfoldable pub enroll_with : (s : Service) → Call → Validator → EnrollmentRequest → Db → Reply × Db
unfolding enroll_pending
enroll_with s c v req db =
    let (outcome, db₁) =
      v.validate c.now req.bootstrap_credential req.csr req.svid_profile_uri db in
    elim outcome [
      | err e ↦ (refused (bootstrap_problem e), db₁)
      | ok o ↦ elim o [
        | replay cached ↦ (enrolled cached.response cached.status_code, db₁)
        | pending vb ev ↦ enroll_pending s c v vb ev req db₁
      ]
    ]

-- handleEnrollment; `none` is a body that is too long, unreadable or no JSON of a request.
unfoldable pub handle_enrollment :
    Service → Call → Registry → Option EnrollmentRequest → Db → Reply × Db
unfolding enroll_with
handle_enrollment s c registry body db = elim body [
  | none ↦ (refused (about_blank 400), db)
  | some req ↦
      if not (req.svid_profile_uri == svid_profile_uri_x509_v1)
      then (refused unsupported_svid_profile, db)
      else elim (lookup_validator req.bootstrap_credential.method registry) [
        | none ↦ (refused unsupported_bootstrap_method, db)
        | some v ↦ enroll_with s c v req db
      ]
]
