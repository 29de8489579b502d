-- ===== src/Bootstrap/EnrollmentToken.antt =====
-- completed/miaf-poc/pkg/mis/bootstrap/enrollmenttoken: validator.go and csrfp.go. The clock is read
-- once in a request.
pub mod Retry
use specification_enhancemen.Prelude.{
  ℕ, ◌+◌, ◌*◌, String, ◌==◌, not, Option, none, some, List, Result, ok, err, if◌then◌else◌, eqb,
  ltb,
}
use specification_enhancemen.Instant.{Instant, second}
use specification_enhancemen.Errors.{TokenErr, TokenProofErr, CommitErr, BootstrapErr}
use specification_enhancemen.Platform.{Platform}
use specification_enhancemen.Store.{Outcome, Db}
use specification_enhancemen.Store.EnrollmentTokens.{consume, find_consumed, record_outcome}
use specification_enhancemen.Identity.{VerifiedBootstrap}
use specification_enhancemen.Bootstrap.{
  Credential, EnrollmentResponse, CachedResponse, ValidationOutcome, replay, pending, Validator,
}
use specification_enhancemen.Bootstrap.Secrets.{parse_secret, is_blank}

abbrev pub max_retry_window : ℕ
max_retry_window = 15 * 60 * second

abbrev pub default_retry_window : ℕ
default_retry_window = 5 * 60 * second

-- New: the retry window that the validator keeps; one that is not positive counts as 0.
unfoldable pub effective_retry_window : ℕ → ℕ
effective_retry_window w =
    let set = if eqb w 0 then default_retry_window else w in
    if ltb max_retry_window set then max_retry_window else set

pub record Evidence : Type 0 where
  pub token_id : String
  pub secret_hash : String

-- csrPubKeyFingerprint; `none` for each of its errors
unfoldable pub csr_pub_key_fingerprint : Platform → String → Option String
csr_pub_key_fingerprint p csr_b64 = elim (p.decode_base64 csr_b64) [
  | none ↦ none
  | some der ↦ elim (p.parse_certificate_request der) [
    | none ↦ none
    | some req ↦ elim (p.marshal_public_key req.public_key) [
      | none ↦ none
      | some spki ↦ some (p.sha256 spki)
    ]
  ]
]

-- What checkReplay does with an outcome that was found
unfoldable pub replay_of :
    Platform → Outcome → String → String → Result TokenProofErr (Option CachedResponse)
replay_of p o csr_b64 svid_profile_uri =
    if not (o.svid_profile_uri == svid_profile_uri)
    then err TokenProofErr.invalid_token
    else elim (csr_pub_key_fingerprint p csr_b64) [
      | none ↦ err TokenProofErr.invalid_token
      | some fp ↦
          if not (o.csr_pub_key_sha256 == fp)
          then err TokenProofErr.invalid_token
          else ok (
              some (record {
                response = record {
                  svid_profile_uri = o.svid_profile_uri;
                  certificate_chain_pem = o.certificate_chain_pem;
                };
                status_code = o.status_code;
              }))
    ]

-- checkReplay of a token that is not blank and parses
unfoldable pub check_secret :
    Platform
    → String
    → Instant
    → String
    → String
    → Db
    → Result TokenProofErr (Option CachedResponse)
unfolding replay_of
check_secret p hash now csr_b64 svid_profile_uri db = elim (find_consumed hash now db) [
  | ok (id, o) ↦ replay_of p o csr_b64 svid_profile_uri
  | err e ↦ elim e [
    | TokenErr.retry_window_expired ↦ err TokenProofErr.invalid_token
    | TokenErr.not_found ↦ ok none
    | TokenErr.expired ↦ err (TokenProofErr.store_failed TokenErr.expired)
    | TokenErr.already_used ↦ err (TokenProofErr.store_failed TokenErr.already_used)
    | TokenErr.outcome_exists ↦ err (TokenProofErr.store_failed TokenErr.outcome_exists)
    | TokenErr.constraint_failed ↦ err (TokenProofErr.store_failed TokenErr.constraint_failed)
    | TokenErr.incomplete_outcome ↦ err (TokenProofErr.store_failed TokenErr.incomplete_outcome)
    | TokenErr.bad_ttl ↦ err (TokenProofErr.store_failed TokenErr.bad_ttl)
  ]
]

-- checkReplay
unfoldable pub check_replay :
    Platform
    → Instant
    → Credential
    → String
    → String
    → Db
    → Result TokenProofErr (Option CachedResponse)
unfolding check_secret
check_replay p now cred csr_b64 svid_profile_uri db = elim cred.proof [
  | none ↦ ok none
  | some proof ↦ if is_blank proof.token then ok none else elim (parse_secret p proof.token) [
    | none ↦ ok none
    | some secret ↦ check_secret p (p.sha256_bytes secret) now csr_b64 svid_profile_uri db
  ]
]

-- How validate reports an error of Consume
unfoldable pub consume_error : TokenErr → TokenProofErr
consume_error TokenErr.not_found = TokenProofErr.invalid_token
consume_error TokenErr.expired = TokenProofErr.invalid_token
consume_error TokenErr.already_used = TokenProofErr.invalid_token
consume_error TokenErr.retry_window_expired = TokenProofErr.invalid_token
consume_error TokenErr.outcome_exists = TokenProofErr.store_failed TokenErr.outcome_exists
consume_error TokenErr.constraint_failed = TokenProofErr.store_failed TokenErr.constraint_failed
consume_error TokenErr.incomplete_outcome = TokenProofErr.store_failed TokenErr.incomplete_outcome
consume_error TokenErr.bad_ttl = TokenProofErr.store_failed TokenErr.bad_ttl

-- validate of a token that is not blank and parses
unfoldable pub consume_secret :
    Platform
    → String
    → Instant
    → String
    → Db
    → Result TokenProofErr (VerifiedBootstrap × Evidence) × Db
unfolding consume_error
consume_secret p hash now method db =
    let (consumed, db₁) = consume hash now db in
    (
      elim consumed [
        | err e ↦ err (consume_error e)
        | ok id ↦ ok (
          record { method = method; esi = p.sha256 id },
          record { token_id = id; secret_hash = hash },
        )
      ],
      db₁,
    )

-- validate
unfoldable pub validate_credential :
    Platform → Instant → Credential → Db → Result TokenProofErr (VerifiedBootstrap × Evidence) × Db
unfolding consume_secret
validate_credential p now cred db = elim cred.proof [
  | none ↦ (err TokenProofErr.missing_token, db)
  | some proof ↦
      if is_blank proof.token
      then (err TokenProofErr.missing_token, db)
      else elim (parse_secret p proof.token) [
        | none ↦ (err TokenProofErr.invalid_token, db)
        | some secret ↦ consume_secret p (p.sha256_bytes secret) now cred.method db
      ]
]

-- Validate
unfoldable pub validate :
    Platform
    → Instant
    → Credential
    → String
    → String
    → Db
    → Result TokenProofErr (ValidationOutcome Evidence) × Db
unfolding check_replay validate_credential
validate p now cred csr_b64 svid_profile_uri db =
    elim (check_replay p now cred csr_b64 svid_profile_uri db) [
      | err e ↦ (err e, db)
      | ok cached ↦ elim cached [
        | some c ↦ (ok (replay c), db)
        | none ↦
            let (verified, db₁) = validate_credential p now cred db in
            (elim verified [ err e ↦ err e | ok (vb, ev) ↦ ok (pending vb ev) ], db₁)
      ]
    ]

-- commit, for evidence of this method and a response that is there; `window` is the effective one.
unfoldable pub commit :
    Platform
    → Instant
    → ℕ
    → Evidence
    → String
    → EnrollmentResponse
    → ℕ
    → String
    → Db
    → Result CommitErr (Unit {0}) × Db
commit p now window ev csr_b64 response status_code ldi_uuid db =
    elim (csr_pub_key_fingerprint p csr_b64) [
      | none ↦ (err CommitErr.no_fingerprint, db)
      | some fp ↦
          let (recorded, db₁) =
            record_outcome
              (record {
                token_id = ev.token_id;
                status_code = status_code;
                certificate_chain_pem = response.certificate_chain_pem;
                svid_profile_uri = response.svid_profile_uri;
                csr_pub_key_sha256 = fp;
                ldi_uuid = ldi_uuid;
                completed_at = now;
                retry_window_ends = now + window;
              })
              db in
          (elim recorded [ err e ↦ err (CommitErr.not_recorded e) | ok _ ↦ ok tt ], db₁)
    ]

-- How the handler of an enrollment sees an error of this method
abbrev pub bootstrap_error : TokenProofErr → BootstrapErr
bootstrap_error TokenProofErr.missing_token = BootstrapErr.token_rejected
bootstrap_error TokenProofErr.invalid_token = BootstrapErr.token_rejected
bootstrap_error (TokenProofErr.store_failed e) = BootstrapErr.other_failure

-- The Validator of this method, from the window that it was configured with
unfoldable pub token_validator : Platform → ℕ → Validator
unfolding validate commit
token_validator p window = record {
  Evidence = Evidence;
  validate = λ now cred csr_b64 uri db.
      let (outcome, db₁) = validate p now cred csr_b64 uri db in
      (elim outcome [ err e ↦ err (bootstrap_error e) | ok o ↦ ok o ], db₁);
  commit = λ now ev csr_b64 response status_code ldi_uuid db.
      (commit p now (effective_retry_window window) ev csr_b64 response status_code ldi_uuid db).1;
}
