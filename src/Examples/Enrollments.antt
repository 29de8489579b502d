-- ===== src/Examples/Enrollments.antt =====
-- Instances of the theorems on requests, secrets and retries, at a device with an enrollment token.
use specification_enhancemen.Prelude.{
  ◌*◌, ◌+◌, ◌≤◌, String, ◌≡◌, refl, true, false, none, some, [], ◌∷◌, ok, err, inl, arith, ◌≢◌,
  eq_iff,
}
use specification_enhancemen.Instant.{second}
use specification_enhancemen.Errors.{TokenProofErr, CsrErr}
use specification_enhancemen.Platform.{CertificateRequest}
use specification_enhancemen.CsrParsing.{has_pem_armor, parse_csr, contains_ascii}
use specification_enhancemen.CsrParsing.Accepted.{IsMiafKey, parse_csr_accepted}
use specification_enhancemen.Store.{Db}
use specification_enhancemen.Store.EnrollmentTokens.{find_consumed, consume, record_outcome}
use specification_enhancemen.Store.Identities.{
  lookup_by_esi, create_ldi_and_bind, insert_ldi, insert_binding,
}
use specification_enhancemen.Store.IssuedSvids.{record_svid}
use specification_enhancemen.Identity.{Call, VerifiedBootstrap, issue_and_record, record_issuance}
use specification_enhancemen.Identity.Enrollment.{enroll, handle_initial}
use specification_enhancemen.Bootstrap.{
  Credential, EnrollmentResponse, Registry, replay, pending, lookup_validator,
}
use specification_enhancemen.Bootstrap.Secrets.{parse_secret, wire, is_blank}
use specification_enhancemen.Bootstrap.Secrets.RoundTrip.{parse_secret-wire}
use specification_enhancemen.Bootstrap.EnrollmentToken.{
  Evidence, validate, commit, token_validator, effective_retry_window, csr_pub_key_fingerprint,
  check_replay,
}
use specification_enhancemen.Bootstrap.EnrollmentToken.Retry.{
  commit-validate, commit-validate_refused,
}
use specification_enhancemen.Transport.{enrolled, refused, invalid_enrollment_token}
use specification_enhancemen.Transport.Enrollment.{
  svid_profile_uri_x509_v1, EnrollmentRequest, csr_problem, handle_enrollment, enrollment_response,
}
use specification_enhancemen.Transport.Enrollment.SpentToken.{handle_enrollment-spent}
use specification_enhancemen.Transport.Enrollment.Retry.{handle_enrollment-handle_enrollment}
use specification_enhancemen.Examples.{at, one_token, platform, service, call, csr_b, secret_1}

accepted : parse_csr platform "csr-b" ≡ ok csr_b
unfolding parse_csr contains_ascii
accepted = refl

parse_csr_accepted_example :
    (req : CertificateRequest) × (platform.decode_base64 "csr-b" ≡ some "csr-b")
    × (platform.parse_certificate_request "csr-b" ≡ some req)
    × (req.signature_valid ≡ true)
    × ("key-b" ≡ req.public_key)
    × IsMiafKey req "ES256"
    × (has_pem_armor "csr-b" ≡ false)
    × (has_pem_armor "csr-b" ≡ false)
parse_csr_accepted_example = parse_csr_accepted platform "csr-b" csr_b accepted

parse_secret-wire_example : parse_secret platform (wire platform secret_1) ≡ some secret_1
parse_secret-wire_example = parse_secret-wire platform secret_1 refl refl

abbrev credential : Credential
credential = record {
  method = "token";
  proof = some (record { assertion = ""; token = "margo-et-v1.secret-1" });
}

abbrev evidence : Evidence
evidence = record { token_id = "token-1"; secret_hash = "hash-1" }

abbrev device : VerifiedBootstrap
device = record { method = "token"; esi = "sha256:token-1" }

abbrev response : EnrollmentResponse
response = record {
  svid_profile_uri = svid_profile_uri_x509_v1;
  certificate_chain_pem = "pem:leaf-b" ∷ "pem:intermediate" ∷ [];
}

abbrev claimed_db : Db
claimed_db = (validate platform (at 200) credential "csr-b" svid_profile_uri_x509_v1 one_token).1

abbrev committed_db : Db
committed_db =
    (commit platform (at 201) (60 * second) evidence "csr-b" response 201 "uuid-2" claimed_db).1

first_validation :
    validate platform (at 200) credential "csr-b" svid_profile_uri_x509_v1 one_token
    ≡ (ok (pending device evidence), claimed_db)
unfolding validate is_blank parse_secret find_consumed consume
first_validation = refl

first_commit :
    commit platform (at 201) (60 * second) evidence "csr-b" response 201 "uuid-2" claimed_db
    ≡ (ok tt, committed_db)
unfolding commit csr_pub_key_fingerprint record_outcome validate is_blank parse_secret find_consumed
    consume
first_commit = refl

commit-validate_example :
    validate platform (at 230) credential "csr-b" svid_profile_uri_x509_v1 committed_db
    ≡ (ok (replay (record { response = response; status_code = 201 })), committed_db)
commit-validate_example =
    commit-validate platform (at 200) (at 201) (at 230) (60 * second) credential "csr-b"
      svid_profile_uri_x509_v1 device evidence response 201 "uuid-2" one_token claimed_db claimed_db
      committed_db first_validation refl first_commit (omega arith)

commit-validate_refused_example :
    validate platform (at 300) credential "csr-b" svid_profile_uri_x509_v1 committed_db
    ≡ (err TokenProofErr.invalid_token, committed_db)
commit-validate_refused_example =
    commit-validate_refused platform (at 200) (at 201) (at 300) (60 * second) credential "csr-b"
      svid_profile_uri_x509_v1 "csr-b" svid_profile_uri_x509_v1 device evidence response 201
      "uuid-2" one_token claimed_db claimed_db committed_db first_validation refl first_commit
      (inl (omega arith))

abbrev registry : Registry
registry = ("token", token_validator platform (60 * second)) ∷ []

abbrev request : EnrollmentRequest
request = record {
  svid_profile_uri = svid_profile_uri_x509_v1;
  csr = "csr-b";
  bootstrap_credential = credential;
  replacement_authorization = none;
}

abbrev enrolled_db : Db
enrolled_db = (handle_enrollment service call registry (some request) one_token).1

first_request :
    handle_enrollment service call registry (some request) one_token
    ≡ (enrolled response 201, enrolled_db)
unfolding handle_enrollment lookup_validator token_validator is_blank parse_secret find_consumed
    consume parse_csr contains_ascii csr_pub_key_fingerprint record_outcome enrollment_response
    enroll lookup_by_esi handle_initial create_ldi_and_bind insert_ldi insert_binding
    issue_and_record record_issuance record_svid
first_request = refl

abbrev later_call : Call
later_call = record call { now = at 230; fresh_uuid = "uuid-3" }

no_outcome_yet :
    check_replay platform (at 200) credential "csr-b" svid_profile_uri_x509_v1 one_token ≡ ok none
unfolding check_replay is_blank parse_secret find_consumed
no_outcome_yet = refl

found_validator : lookup_validator "token" registry ≡ some (token_validator platform (60 * second))
unfolding lookup_validator
found_validator = refl

fingerprint_b : csr_pub_key_fingerprint platform "csr-b" ≡ some "sha256:key-b"
unfolding csr_pub_key_fingerprint
fingerprint_b = refl

fingerprint_set : ◌≢◌ {A = String} "sha256:key-b" ""
fingerprint_set = ground (arith, eq_iff "sha256:key-b" "")

token_named : ◌≢◌ {A = String} "token-1" ""
token_named = ground (arith, eq_iff "token-1" "")

window_open : at 230 ≤ at 200 + effective_retry_window (60 * second)
unfolding effective_retry_window
window_open = omega arith

handle_enrollment-handle_enrollment_example :
    handle_enrollment service later_call registry (some request) enrolled_db
    ≡ (enrolled response 201, enrolled_db)
handle_enrollment-handle_enrollment_example =
    handle_enrollment-handle_enrollment service call later_call registry (60 * second) request
      "sha256:key-b" response 201 one_token enrolled_db found_validator no_outcome_yet fingerprint_b
      fingerprint_set (token_named, tt) first_request window_open

abbrev bad_request : EnrollmentRequest
bad_request = record request { csr = "csr-x" }

bad_validation :
    validate platform (at 200) credential "csr-x" svid_profile_uri_x509_v1 one_token
    ≡ (ok (pending device evidence), claimed_db)
unfolding validate is_blank parse_secret find_consumed consume
bad_validation = refl

bad_csr : parse_csr platform "csr-x" ≡ err CsrErr.malformed
unfolding parse_csr contains_ascii
bad_csr = refl

handle_enrollment-spent_example :
    (handle_enrollment service call registry (some bad_request) one_token
      ≡ (refused (csr_problem CsrErr.malformed), claimed_db))
    × (handle_enrollment service later_call registry (some request) claimed_db
        ≡ (refused invalid_enrollment_token, claimed_db))
handle_enrollment-spent_example =
    handle_enrollment-spent service call later_call registry (60 * second) bad_request request
      device evidence CsrErr.malformed one_token claimed_db found_validator refl bad_validation
      bad_csr refl refl
