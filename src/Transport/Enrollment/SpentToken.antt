-- ===== src/Transport/Enrollment/SpentToken.antt =====
-- handleEnrollment of transport/http/enrollment.go with a certificate request that is refused.
use specification_enhancemen.Prelude.{
  ℕ, String, ◌==◌, true, none, some, find, ◌≡◌, ◌⊎◌, refl, arith, ok, err, Result-cases,
  Option-cases, inl, inr, sym, ap, ◌∙◌,
}
use specification_enhancemen.Instant.{Instant}
use specification_enhancemen.Errors.{TokenErr, TokenProofErr, CsrErr}
use specification_enhancemen.Platform.{Platform}
use specification_enhancemen.CsrParsing.{parse_csr}
use specification_enhancemen.Store.{Db}
use specification_enhancemen.Store.EnrollmentTokens.{outcome_of, consume, find_consumed}
use specification_enhancemen.Store.EnrollmentTokens.SingleUse.{here, consume_once}
use specification_enhancemen.Identity.{Service, Call, VerifiedBootstrap}
use specification_enhancemen.Bootstrap.{Credential, Registry, lookup_validator, pending}
use specification_enhancemen.Bootstrap.EnrollmentToken.{
  Evidence, check_secret, check_replay, consume_secret, consume_error, validate_credential,
  validate, token_validator,
}
use specification_enhancemen.Bootstrap.EnrollmentToken.Retry.{
  Carries, validate_credential-ok, validate-pending, consume-found, validate-check_secret,
}
use specification_enhancemen.Transport.{refused, invalid_enrollment_token}
use specification_enhancemen.Transport.Enrollment.{
  svid_profile_uri_x509_v1, EnrollmentRequest, csr_problem, bootstrap_problem, enroll_pending,
  enroll_with, handle_enrollment,
}
use specification_enhancemen.Transport.Enrollment.FirstRequest.{
  consume-known, check_secret-unseen, handle_enrollment-enroll_with,
}

-- A pending validation found nothing to replay.
validate-fresh :
    (p : Platform) (now : Instant) (cred : Credential) (csr uri : String) (db db₁ : Db)
    (vb : VerifiedBootstrap) (ev : Evidence)
    → validate p now cred csr uri db ≡ (ok (pending vb ev), db₁)
    → check_replay p now cred csr uri db ≡ ok none
unfolding validate
validate-fresh p now cred csr uri db db₁ vb ev h =
    elim (Result-cases (check_replay p now cred csr uri db)) [
      | inr (x, e) ↦ absurd (ground arith)
      | inl (cached, e) ↦ elim (Option-cases cached) [
        | inr (x, f) ↦ absurd (ground arith)
        | inl f ↦ e ∙ ap ok f
      ]
    ]

-- A claimed token without an outcome is no candidate for a replay.
check_secret-spent :
    (p : Platform) (now later : Instant) (ev : Evidence) (csr uri csr' uri' : String) (db db₁ : Db)
    → check_secret p ev.secret_hash now csr uri db ≡ ok none
    → consume ev.secret_hash now db ≡ (ok ev.token_id, db₁)
    → check_secret p ev.secret_hash later csr' uri' db₁ ≡ ok none
unfolding check_secret find_consumed
check_secret-spent p now later ev csr uri csr' uri' db db₁ fresh claimed =
    let (t, hit, name, untouched) = consume-known ev.secret_hash ev.token_id now db db₁ claimed in
    let (t', hit', name') = consume-found ev.secret_hash ev.token_id now db db₁ claimed in
    let unseen = check_secret-unseen p ev.secret_hash now csr uri db t fresh hit in
    let no_outcome : find (outcome_of t'.token_id) db₁.enrollment_token_outcomes ≡ none =
      ap (λ i. find (outcome_of i) db₁.enrollment_token_outcomes) (name' ∙ sym name)
      ∙ (ap (find (outcome_of t.token_id)) untouched ∙ unseen) in
    ground (arith, hit', no_outcome)

validate_credential-spent :
    (p : Platform) (later : Instant) (cred : Credential) (hash : String) (db : Db)
    → Carries p cred hash
    → (consume hash later db ≡ (err TokenErr.expired, db))
      ⊎ (consume hash later db ≡ (err TokenErr.already_used, db))
    → validate_credential p later cred db ≡ (err TokenProofErr.invalid_token, db)
unfolding validate_credential consume_secret consume_error
validate_credential-spent p later cred hash db c (inl e) =
    rw (c.there) (rw (c.inked, c.parsed) (rw (c.hashed) (rw e refl)))
validate_credential-spent p later cred hash db c (inr e) =
    rw (c.there) (rw (c.inked, c.parsed) (rw (c.hashed) (rw e refl)))

-- After a pending validation, validating the token again is refused while no outcome is kept.
validate-spent :
    (p : Platform) (now later : Instant) (cred : Credential) (csr uri csr' uri' : String)
    (db db₁ : Db) (vb : VerifiedBootstrap) (ev : Evidence)
    → validate p now cred csr uri db ≡ (ok (pending vb ev), db₁)
    → validate p later cred csr' uri' db₁ ≡ (err TokenProofErr.invalid_token, db₁)
unfolding validate
validate-spent p now later cred csr uri csr' uri' db db₁ vb ev h =
    let (carried, claimed) =
      validate_credential-ok p now cred db db₁ vb ev
        (validate-pending p now cred csr uri db db₁ vb ev h) in
    let fresh =
      sym (validate-check_secret p now cred ev.secret_hash csr uri db carried)
      ∙ validate-fresh p now cred csr uri db db₁ vb ev h in
    let unreplayed : check_replay p later cred csr' uri' db₁ ≡ ok none =
      validate-check_secret p later cred ev.secret_hash csr' uri' db₁ carried
      ∙ check_secret-spent p now later ev csr uri csr' uri' db db₁ fresh claimed in
    let again =
      validate_credential-spent p later cred ev.secret_hash db₁ carried
        (consume_once ev.secret_hash ev.token_id now later db db₁ db₁ claimed here) in
    ground (arith, unreplayed, again)

enroll_with-csr_refused :
    (s : Service) (c : Call) (window : ℕ) (req : EnrollmentRequest) (db db₁ : Db)
    (vb : VerifiedBootstrap) (ev : Evidence) (x : CsrErr)
    → validate s.platform c.now req.bootstrap_credential req.csr req.svid_profile_uri db
      ≡ (ok (pending vb ev), db₁)
    → parse_csr s.platform req.csr ≡ err x
    → enroll_with s c (token_validator s.platform window) req db ≡ (refused (csr_problem x), db₁)
unfolding enroll_with enroll_pending token_validator
enroll_with-csr_refused s c window req db db₁ vb ev x h k = ground (arith, h, k)

enroll_with-token_refused :
    (s : Service) (c : Call) (window : ℕ) (req : EnrollmentRequest) (db : Db)
    → validate s.platform c.now req.bootstrap_credential req.csr req.svid_profile_uri db
      ≡ (err TokenProofErr.invalid_token, db)
    → enroll_with s c (token_validator s.platform window) req db
      ≡ (refused invalid_enrollment_token, db)
unfolding enroll_with token_validator bootstrap_problem
enroll_with-token_refused s c window req db h = ground (arith, h)

-- A request with a good enrollment token and a certificate request that Parse refuses is refused for
-- the latter, but its token is spent: the next request with the same credential, for the profile of
-- devices, is refused at any time as one with an invalid token, and changes no table.
pub handle_enrollment-spent :
    (s : Service) (c later : Call) (registry : Registry) (window : ℕ) (req req' : EnrollmentRequest)
    (vb : VerifiedBootstrap) (ev : Evidence) (x : CsrErr) (db db₁ : Db)
    → lookup_validator req.bootstrap_credential.method registry
      ≡ some (token_validator s.platform window)
    → (req.svid_profile_uri == svid_profile_uri_x509_v1) ≡ true
    → validate s.platform c.now req.bootstrap_credential req.csr req.svid_profile_uri db
      ≡ (ok (pending vb ev), db₁)
    → parse_csr s.platform req.csr ≡ err x
    → req'.bootstrap_credential ≡ req.bootstrap_credential
    → (req'.svid_profile_uri == svid_profile_uri_x509_v1) ≡ true
    → (handle_enrollment s c registry (some req) db ≡ (refused (csr_problem x), db₁))
      × (handle_enrollment s later registry (some req') db₁
          ≡ (refused invalid_enrollment_token, db₁))
handle_enrollment-spent s c later registry window req req' vb ev x db db₁ method profile first bad
      same profile' =
    let p = s.platform in
    let method' : lookup_validator req'.bootstrap_credential.method registry
        ≡ some (token_validator p window) =
      ap (λ (b : Credential). lookup_validator b.method registry) same ∙ method in
    let spent : validate p later.now req'.bootstrap_credential req'.csr req'.svid_profile_uri db₁
        ≡ (err TokenProofErr.invalid_token, db₁) =
      ap (λ b. validate p later.now b req'.csr req'.svid_profile_uri db₁) same
      ∙ validate-spent p c.now later.now req.bootstrap_credential req.csr req.svid_profile_uri
          req'.csr req'.svid_profile_uri db db₁ vb ev first in
    (
      handle_enrollment-enroll_with s c registry (token_validator p window) req db method profile
          ∙ enroll_with-csr_refused s c window req db db₁ vb ev x first bad,
      handle_enrollment-enroll_with s later registry (token_validator p window) req' db₁ method'
            profile'
          ∙ enroll_with-token_refused s later window req' db₁ spent,
    )
