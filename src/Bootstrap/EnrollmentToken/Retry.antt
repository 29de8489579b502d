-- ===== src/Bootstrap/EnrollmentToken/Retry.antt =====
-- Validate and commit of bootstrap/enrollmenttoken/validator.go in a retry.
use specification_enhancemen.Prelude.{
  ℕ, ◌+◌, ◌≤◌, ◌<◌, String, false, some, List, [], ◌∷◌, ◌≡◌, ◌≢◌, ◌⊎◌, refl, arith, ok, err,
  Result-cases, Option-cases, Bool-cases, inl, inr, any, find, find-append, find-modify,
  str_eq_refl, ltb, ap, ◌∙◌, if◌then◌else◌, eq_iff, sym,
}
use specification_enhancemen.Instant.{Instant}
use specification_enhancemen.Errors.{TokenErr, TokenProofErr}
use specification_enhancemen.Platform.{Platform}
use specification_enhancemen.Store.{EnrollmentToken, consumed, Outcome, Db}
use specification_enhancemen.Store.EnrollmentTokens.{
  has_secret, is_claimable, outcome_of, claim, consume, find_consumed, record_outcome,
}
use specification_enhancemen.Identity.{VerifiedBootstrap}
use specification_enhancemen.Bootstrap.{Proof, Credential, EnrollmentResponse, replay, pending}
use specification_enhancemen.Bootstrap.Secrets.{parse_secret, is_blank}
use specification_enhancemen.Bootstrap.EnrollmentToken.{
  Evidence, csr_pub_key_fingerprint, replay_of, check_secret, check_replay, consume_secret,
  validate_credential, validate, commit,
}

-- The credential carries this secret.
pub record Carries (p : Platform) (cred : Credential) (hash : String) : Type 0 where
  pub proof : Proof
  pub there : cred.proof ≡ some proof
  pub inked : is_blank proof.token ≡ false
  pub secret : List ℕ
  pub parsed : parse_secret p proof.token ≡ some secret
  pub hashed : p.sha256_bytes secret ≡ hash

-- A pending validation went past the check for a replay and consumed the token of the credential.
pub validate_credential-ok :
    (p : Platform) (now : Instant) (cred : Credential) (db db₁ : Db) (vb : VerifiedBootstrap)
    (ev : Evidence)
    → validate_credential p now cred db ≡ (ok (vb, ev), db₁)
    → Carries p cred ev.secret_hash × (consume ev.secret_hash now db ≡ (ok ev.token_id, db₁))
unfolding validate_credential consume_secret
validate_credential-ok p now cred db db₁ vb ev h = elim (Option-cases cred.proof) [
  | inl e ↦ absurd (ground arith)
  | inr (proof, e) ↦ elim (Bool-cases (is_blank proof.token)) [
    | inl b ↦ absurd (ground arith)
    | inr b ↦ elim (Option-cases (parse_secret p proof.token)) [
      | inl g ↦ absurd (ground arith)
      | inr (secret, g) ↦ elim (Result-cases (consume (p.sha256_bytes secret) now db).0) [
        | inr (x, k) ↦ absurd (ground arith)
        | inl (id, k) ↦
            let hashed : p.sha256_bytes secret ≡ ev.secret_hash = ground arith in
            (
              record {
                proof = proof;
                there = e;
                inked = b;
                secret = secret;
                parsed = g;
                hashed = hashed;
              },
              ground arith,
            )
      ]
    ]
  ]
]

pub validate-pending :
    (p : Platform) (now : Instant) (cred : Credential) (csr uri : String) (db db₁ : Db)
    (vb : VerifiedBootstrap) (ev : Evidence)
    → validate p now cred csr uri db ≡ (ok (pending vb ev), db₁)
    → validate_credential p now cred db ≡ (ok (vb, ev), db₁)
unfolding validate
validate-pending p now cred csr uri db db₁ vb ev h =
    elim (Result-cases (check_replay p now cred csr uri db)) [
      | inr (x, e) ↦ absurd (ground arith)
      | inl (cached, e) ↦ elim (Option-cases cached) [
        | inr (c, f) ↦ absurd (ground arith)
        | inl f ↦ elim (Result-cases (validate_credential p now cred db).0) [
          | inr (x, g) ↦ absurd (ground arith)
          | inl (v, g) ↦ ground arith
        ]
      ]
    ]

-- The consumed token is found by its secret under the identifier that Consume returned.
pub consume-found :
    (hash id : String) (now : Instant) (db db₁ : Db)
    → consume hash now db ≡ (ok id, db₁)
    → (t : EnrollmentToken) × (find (has_secret hash) db₁.enrollment_tokens ≡ some t)
      × (t.token_id ≡ id)
unfolding consume claim
consume-found hash id now db db₁ h =
    elim (Option-cases (find (has_secret hash) db.enrollment_tokens)) [
      | inl miss ↦ absurd (ground arith)
      | inr (t, hit) ↦
          let moved =
            find-modify (has_secret hash) (is_claimable t.token_id)
              (λ t. record t { status = consumed; consumed_at = some now }) (λ t. refl)
              db.enrollment_tokens t hit in
          (
            if is_claimable t.token_id t
                then record t { status = consumed; consumed_at = some now }
                else t,
            ground (arith, moved),
            ground arith,
          )
    ]

-- The outcome that commit writes
abbrev outcome_at : Instant → ℕ → Evidence → String → EnrollmentResponse → ℕ → String → Outcome
outcome_at now window ev fp response status_code ldi_uuid = record {
  token_id = ev.token_id;
  status_code = status_code;
  certificate_chain_pem = response.certificate_chain_pem;
  svid_profile_uri = response.svid_profile_uri;
  csr_pub_key_sha256 = fp;
  ldi_uuid = ldi_uuid;
  completed_at = now;
  retry_window_ends = now + window;
}

-- A commit that succeeds adds one outcome, under a fingerprint that the request has.
commit-ok :
    (p : Platform) (now : Instant) (window : ℕ) (ev : Evidence) (csr : String)
    (response : EnrollmentResponse) (status_code : ℕ) (ldi_uuid : String) (db db' : Db)
    → commit p now window ev csr response status_code ldi_uuid db ≡ (ok tt, db')
    → (fp : String) × (csr_pub_key_fingerprint p csr ≡ some fp)
      × (db'.enrollment_tokens ≡ db.enrollment_tokens)
      × (find (outcome_of ev.token_id) db'.enrollment_token_outcomes
          ≡ some (outcome_at now window ev fp response status_code ldi_uuid))
unfolding commit record_outcome
commit-ok p now window ev csr response status_code ldi_uuid db db' h =
    elim (Option-cases (csr_pub_key_fingerprint p csr)) [
      | inl e ↦ absurd (ground arith)
      | inr (fp, e) ↦
          let o = outcome_at now window ev fp response status_code ldi_uuid in
          let unseen : any (outcome_of ev.token_id) db.enrollment_token_outcomes ≡ false =
            ground arith in
          let added =
            find-append (outcome_of ev.token_id) db.enrollment_token_outcomes (o ∷ []) unseen in
          (fp, e, ground arith, ground (arith, added, str_eq_refl ev.token_id))
    ]

-- What FindConsumed says of the token afterwards
find_consumed-commit :
    (now later : Instant) (ev : Evidence) (o : Outcome) (db db₁ db₂ db₃ : Db)
    → consume ev.secret_hash now db ≡ (ok ev.token_id, db₁)
    → db₂.enrollment_tokens ≡ db₁.enrollment_tokens
    → db₃.enrollment_tokens ≡ db₂.enrollment_tokens
    → find (outcome_of ev.token_id) db₃.enrollment_token_outcomes ≡ some o
    → find_consumed ev.secret_hash later db₃ ≡ (
        if ltb o.retry_window_ends later
        then err TokenErr.retry_window_expired
        else ok (ev.token_id, o))
unfolding find_consumed
find_consumed-commit now later ev o db db₁ db₂ db₃ claimed kept same written =
    let (t, found, named) = consume-found ev.secret_hash ev.token_id now db db₁ claimed in
    let hit : find (has_secret ev.secret_hash) db₃.enrollment_tokens ≡ some t =
      ap (find (has_secret ev.secret_hash)) (same ∙ kept) ∙ found in
    ground (arith, hit, named, written)

-- The check for a replay is the check of the secret that the credential carries.
pub validate-check_secret :
    (p : Platform) (later : Instant) (cred : Credential) (hash csr uri : String) (db : Db)
    → Carries p cred hash
    → check_replay p later cred csr uri db ≡ check_secret p hash later csr uri db
unfolding check_replay
validate-check_secret p later cred hash csr uri db c =
    rw (c.there) (rw (c.inked, c.parsed, c.hashed) refl)

-- After an enrollment with a token that was validated and committed, the same request is answered
-- until the end of the retry window with the same response and status, and changes no table. The
-- service in between may do anything but change the tokens.
pub commit-validate :
    (p : Platform) (now done later : Instant) (window : ℕ) (cred : Credential) (csr uri : String)
    (vb : VerifiedBootstrap) (ev : Evidence) (response : EnrollmentResponse) (status_code : ℕ)
    (ldi_uuid : String) (db db₁ db₂ db₃ : Db)
    → validate p now cred csr uri db ≡ (ok (pending vb ev), db₁)
    → db₂.enrollment_tokens ≡ db₁.enrollment_tokens
    → commit p done window ev csr response status_code ldi_uuid db₂ ≡ (ok tt, db₃)
    → later ≤ done + window
    → validate p later cred csr response.svid_profile_uri db₃
      ≡ (ok (replay (record { response = response; status_code = status_code })), db₃)
unfolding validate check_secret replay_of
commit-validate p now done later window cred csr uri vb ev response status_code ldi_uuid db db₁ db₂
      db₃ first kept second early =
    let (carried, claimed) =
      validate_credential-ok p now cred db db₁ vb ev
        (validate-pending p now cred csr uri db db₁ vb ev first) in
    let (fp, printed, same, written) =
      commit-ok p done window ev csr response status_code ldi_uuid db₂ db₃ second in
    let o = outcome_at done window ev fp response status_code ldi_uuid in
    let found = find_consumed-commit now later ev o db db₁ db₂ db₃ claimed kept same written in
    let open_yet : ltb (done + window) later ≡ false = ground arith in
    let opened : find_consumed ev.secret_hash later db₃ ≡ ok (ev.token_id, o) =
      found ∙ rw open_yet refl in
    let replayed : replay_of p o csr response.svid_profile_uri
        ≡ ok (some (record { response = response; status_code = status_code })) =
      ground (arith, printed, str_eq_refl response.svid_profile_uri, str_eq_refl fp) in
    let answered =
      validate-check_secret p later cred ev.secret_hash csr response.svid_profile_uri db₃ carried in
    ground (arith, answered, opened, replayed)

-- After such an enrollment the token is refused for good once the retry window has ended, and before
-- that for another profile or another public key; no table changes.
pub commit-validate_refused :
    (p : Platform) (now done later : Instant) (window : ℕ) (cred : Credential)
    (csr uri csr' uri' : String) (vb : VerifiedBootstrap) (ev : Evidence)
    (response : EnrollmentResponse) (status_code : ℕ) (ldi_uuid : String) (db db₁ db₂ db₃ : Db)
    → validate p now cred csr uri db ≡ (ok (pending vb ev), db₁)
    → db₂.enrollment_tokens ≡ db₁.enrollment_tokens
    → commit p done window ev csr response status_code ldi_uuid db₂ ≡ (ok tt, db₃)
    → (done + window < later)
      ⊎ ((response.svid_profile_uri ≢ uri')
          ⊎ (csr_pub_key_fingerprint p csr' ≢ csr_pub_key_fingerprint p csr))
    → validate p later cred csr' uri' db₃ ≡ (err TokenProofErr.invalid_token, db₃)
unfolding validate check_secret replay_of
commit-validate_refused p now done later window cred csr uri csr' uri' vb ev response status_code
      ldi_uuid db db₁ db₂ db₃ first kept second differs =
    let (carried, claimed) =
      validate_credential-ok p now cred db db₁ vb ev
        (validate-pending p now cred csr uri db db₁ vb ev first) in
    let (fp, printed, same, written) =
      commit-ok p done window ev csr response status_code ldi_uuid db₂ db₃ second in
    let o = outcome_at done window ev fp response status_code ldi_uuid in
    let found = find_consumed-commit now later ev o db db₁ db₂ db₃ claimed kept same written in
    let answered = validate-check_secret p later cred ev.secret_hash csr' uri' db₃ carried in
    elim (Bool-cases (ltb (done + window) later)) [
      | inl over ↦
          let closed : find_consumed ev.secret_hash later db₃ ≡ err TokenErr.retry_window_expired =
            found ∙ rw over refl in
          ground (arith, answered, closed)
      | inr open_yet ↦
          let opened : find_consumed ev.secret_hash later db₃ ≡ ok (ev.token_id, o) =
            found ∙ rw open_yet refl in
          let refused : replay_of p o csr' uri' ≡ err TokenProofErr.invalid_token = elim differs [
            | inl late ↦ absurd (ground arith)
            | inr (inl other) ↦ ground (arith, eq_iff response.svid_profile_uri uri')
            | inr (inr changed) ↦ elim (Option-cases (csr_pub_key_fingerprint p csr')) [
              | inl none_there ↦ ground arith
              | inr (fp', printed') ↦
                  let apart : fp ≢ fp' =
                    λ e. changed (printed' ∙ (ap some (sym e) ∙ sym printed)) in
                  ground (arith, eq_iff fp fp')
            ]
          ] in
          ground (arith, answered, opened, refused)
    ]
