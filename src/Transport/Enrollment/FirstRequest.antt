-- ===== src/Transport/Enrollment/FirstRequest.antt =====
-- handleEnrollment of transport/http/enrollment.go: a first request with a token.
use specification_enhancemen.Prelude.{
  ℕ, String, true, false, none, some, All, All-find, any, find, any-found, str_eq_refl, ◌≡◌, ◌≢◌,
  refl, arith, ok, Option-cases, Result-cases, Bool-cases, inl, inr, ◌==◌, ◌∙◌, eq_iff, ap, ltb,
  find-none, sym,
}
use specification_enhancemen.Instant.{Instant}
use specification_enhancemen.Platform.{Platform, Csr}
use specification_enhancemen.CsrParsing.{parse_csr}
use specification_enhancemen.Store.{EnrollmentToken, Outcome, Db}
use specification_enhancemen.Store.EnrollmentTokens.{
  has_secret, has_token_id, outcome_of, consume, find_consumed, record_outcome,
}
use specification_enhancemen.Identity.{Service, Call, VerifiedBootstrap, EnrollmentResult}
use specification_enhancemen.Identity.Enrollment.{enroll}
use specification_enhancemen.Identity.Enrollment.Tokens.{SameTokens}
use specification_enhancemen.Bootstrap.{
  Credential, EnrollmentResponse, Registry, lookup_validator, replay, pending, Validator,
  CachedResponse,
}
use specification_enhancemen.Bootstrap.EnrollmentToken.{
  Evidence, csr_pub_key_fingerprint, replay_of, check_secret, check_replay, validate_credential,
  validate, commit, effective_retry_window, token_validator,
}
use specification_enhancemen.Bootstrap.EnrollmentToken.Retry.{
  Carries, consume-found, validate-check_secret,
}
use specification_enhancemen.Transport.{enrolled}
use specification_enhancemen.Transport.Enrollment.{
  svid_profile_uri_x509_v1, EnrollmentRequest, enrollment_response, enroll_pending, enroll_with,
  handle_enrollment,
}

-- What a successful first request went through
pub record FirstRequest (s : Service) (c : Call) (window : ℕ) (req : EnrollmentRequest)
    (response : EnrollmentResponse) (status_code : ℕ) (db db' : Db) : Type 0 where
  pub vb : VerifiedBootstrap
  pub ev : Evidence
  pub csr : Csr
  pub res : EnrollmentResult
  pub db₁ : Db
  pub db₂ : Db
  pub validated :
      validate s.platform c.now req.bootstrap_credential req.csr req.svid_profile_uri db
      ≡ (ok (pending vb ev), db₁)
  pub issued : enroll s c vb csr req.replacement_authorization db₁ ≡ (ok res, db₂)
  pub answered : response ≡ enrollment_response s.platform res
  pub coded : status_code ≡ res.status_code
  pub committed :
      db'
      ≡ (commit s.platform c.now
          (effective_retry_window window)
          ev
          req.csr
          (enrollment_response s.platform res)
          res.status_code
          res.ldi.uuid
          db₂).1

pub first_request :
    (s : Service) (c : Call) (window : ℕ) (req : EnrollmentRequest) (response : EnrollmentResponse)
    (status_code : ℕ) (db db' : Db)
    → check_replay s.platform c.now req.bootstrap_credential req.csr req.svid_profile_uri db
      ≡ ok none
    → enroll_with s c (token_validator s.platform window) req db
      ≡ (enrolled response status_code, db')
    → FirstRequest s c window req response status_code db db'
unfolding enroll_with enroll_pending token_validator validate
first_request s c window req response status_code db db' fresh h =
    elim (Result-cases (validate_credential s.platform c.now req.bootstrap_credential db).0) [
      | inr (x, e) ↦ absurd (ground arith)
      | inl ((vb, ev), e) ↦
          let db₁ = (validate_credential s.platform c.now req.bootstrap_credential db).1 in
          elim (Result-cases (parse_csr s.platform req.csr)) [
            | inr (x, f) ↦ absurd (ground arith)
            | inl (csr, f) ↦
                elim (Result-cases (enroll s c vb csr req.replacement_authorization db₁).0) [
                  | inr (x, g) ↦ absurd (ground arith)
                  | inl (res, g) ↦ record {
                    vb = vb;
                    ev = ev;
                    csr = csr;
                    res = res;
                    db₁ = db₁;
                    db₂ = (enroll s c vb csr req.replacement_authorization db₁).1;
                    validated = ground arith;
                    issued = ground arith;
                    answered = ground arith;
                    coded = ground arith;
                    committed = ground arith;
                  }
                ]
          ]
    ]

-- The token before it was claimed
pub consume-known :
    (hash id : String) (now : Instant) (db db₁ : Db)
    → consume hash now db ≡ (ok id, db₁)
    → (t : EnrollmentToken) × (find (has_secret hash) db.enrollment_tokens ≡ some t)
      × (t.token_id ≡ id)
      × (db₁.enrollment_token_outcomes ≡ db.enrollment_token_outcomes)
unfolding consume
consume-known hash id now db db₁ h =
    elim (Option-cases (find (has_secret hash) db.enrollment_tokens)) [
      | inl miss ↦ absurd (ground arith)
      | inr (t, hit) ↦ (t, hit, ground arith, ground arith)
    ]

replay_of-answers :
    (p : Platform) (o : Outcome) (csr uri : String) → replay_of p o csr uri ≢ ok none
unfolding replay_of
replay_of-answers p o csr uri e = elim (Option-cases (csr_pub_key_fingerprint p csr)) [
  | inl f ↦ ground arith
  | inr (fp, f) ↦ ground arith
]

-- A check that finds nothing to replay has seen no outcome of the token.
pub check_secret-unseen :
    (p : Platform) (hash : String) (now : Instant) (csr uri : String) (db : Db)
    (t : EnrollmentToken)
    → check_secret p hash now csr uri db ≡ ok none
    → find (has_secret hash) db.enrollment_tokens ≡ some t
    → find (outcome_of t.token_id) db.enrollment_token_outcomes ≡ none
unfolding check_secret find_consumed
check_secret-unseen p hash now csr uri db t h hit =
    elim (Option-cases (find (outcome_of t.token_id) db.enrollment_token_outcomes)) [
      | inl miss ↦ miss
      | inr (o, seen) ↦ elim (Bool-cases (ltb o.retry_window_ends now)) [
        | inl e ↦ absurd (ground arith)
        | inr e ↦ absurd (replay_of-answers p o csr uri (ground arith))
      ]
    ]

-- When a commit is recorded
commit-records :
    (p : Platform) (now : Instant) (window : ℕ) (ev : Evidence) (csr fp : String)
    (response : EnrollmentResponse) (status_code : ℕ) (ldi_uuid : String) (db : Db)
    → csr_pub_key_fingerprint p csr ≡ some fp
    → fp ≢ ""
    → ev.token_id ≢ ""
    → response.svid_profile_uri ≢ ""
    → any (outcome_of ev.token_id) db.enrollment_token_outcomes ≡ false
    → any (has_token_id ev.token_id) db.enrollment_tokens ≡ true
    → (commit p now window ev csr response status_code ldi_uuid db).0 ≡ ok tt
unfolding commit record_outcome
commit-records p now window ev csr fp response status_code ldi_uuid db e f t u unseen known =
    ground (arith, eq_iff fp "", eq_iff ev.token_id "", eq_iff response.svid_profile_uri "")

-- The commit of a first request is recorded.
pub commit-recorded :
    (p : Platform) (now : Instant) (window : ℕ) (cred : Credential) (csr uri fp : String)
    (response : EnrollmentResponse) (status_code : ℕ) (ldi_uuid : String) (ev : Evidence)
    (db db₁ db₂ : Db)
    → Carries p cred ev.secret_hash
    → consume ev.secret_hash now db ≡ (ok ev.token_id, db₁)
    → check_replay p now cred csr uri db ≡ ok none
    → SameTokens db₁ db₂
    → csr_pub_key_fingerprint p csr ≡ some fp
    → fp ≢ ""
    → All (λ (t : EnrollmentToken). t.token_id ≢ "") db.enrollment_tokens
    → response.svid_profile_uri ≢ ""
    → (commit p now window ev csr response status_code ldi_uuid db₂).0 ≡ ok tt
commit-recorded p now window cred csr uri fp response status_code ldi_uuid ev db db₁ db₂ carried
      claimed fresh same printed inked named profile =
    let (t, hit, name, untouched) = consume-known ev.secret_hash ev.token_id now db db₁ claimed in
    let (t', hit', name') = consume-found ev.secret_hash ev.token_id now db db₁ claimed in
    let unchecked =
      sym (validate-check_secret p now cred ev.secret_hash csr uri db carried) ∙ fresh in
    let unseen =
      find-none (outcome_of t.token_id) db.enrollment_token_outcomes
        (check_secret-unseen p ev.secret_hash now csr uri db t unchecked hit) in
    let no_outcome : any (outcome_of ev.token_id) db₂.enrollment_token_outcomes ≡ false =
      ap (any (outcome_of ev.token_id)) (same.outcomes ∙ untouched)
      ∙ (ap (λ i. any (outcome_of i) db.enrollment_token_outcomes) (sym name) ∙ unseen) in
    let is_named : has_token_id ev.token_id t' ≡ true =
      ap (λ i. i == ev.token_id) name' ∙ str_eq_refl ev.token_id in
    let known : any (has_token_id ev.token_id) db₂.enrollment_tokens ≡ true =
      ap (any (has_token_id ev.token_id)) same.tokens
      ∙ any-found (has_secret ev.secret_hash) (has_token_id ev.token_id) db₁.enrollment_tokens t'
          hit' is_named in
    let has_id : ev.token_id ≢ "" = λ e.
      All-find (λ (t : EnrollmentToken). t.token_id ≢ "") (has_secret ev.secret_hash)
        db.enrollment_tokens t named hit (name ∙ e) in
    commit-records p now window ev csr fp response status_code ldi_uuid db₂ printed inked has_id
      profile no_outcome known

pub profile_set : ◌≢◌ {A = String} svid_profile_uri_x509_v1 ""
profile_set = ground (arith, eq_iff svid_profile_uri_x509_v1 "")

pub result_of {ℓ κ} :
    {A : Type ℓ} {B : Type κ} {a : A} {b : B} (m : A × B) → m.0 ≡ a → b ≡ m.1 → m ≡ (a, b)
result_of m e f = rw (e, f) refl

-- A request for the profile of devices goes to the validator of its method.
pub handle_enrollment-enroll_with :
    (s : Service) (c : Call) (registry : Registry) (v : Validator) (req : EnrollmentRequest)
    (db : Db)
    → lookup_validator req.bootstrap_credential.method registry ≡ some v
    → (req.svid_profile_uri == svid_profile_uri_x509_v1) ≡ true
    → handle_enrollment s c registry (some req) db ≡ enroll_with s c v req db
unfolding handle_enrollment
handle_enrollment-enroll_with s c registry v req db method profile = rw profile (rw method refl)

pub handle_enrollment-profile :
    (s : Service) (c : Call) (registry : Registry) (req : EnrollmentRequest)
    (response : EnrollmentResponse) (status_code : ℕ) (db db' : Db)
    → handle_enrollment s c registry (some req) db ≡ (enrolled response status_code, db')
    → (req.svid_profile_uri == svid_profile_uri_x509_v1) ≡ true
unfolding handle_enrollment
handle_enrollment-profile s c registry req response status_code db db' h = ground arith

pub enroll_with-replays :
    (s : Service) (c : Call) (window : ℕ) (req : EnrollmentRequest) (cached : CachedResponse)
    (db db' : Db)
    → validate s.platform c.now req.bootstrap_credential req.csr req.svid_profile_uri db
      ≡ (ok (replay cached), db')
    → enroll_with s c (token_validator s.platform window) req db
      ≡ (enrolled cached.response cached.status_code, db')
unfolding enroll_with token_validator
enroll_with-replays s c window req cached db db' h = ground (arith, h)
