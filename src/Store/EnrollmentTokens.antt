-- ===== src/Store/EnrollmentTokens.antt =====
-- completed/miaf-poc/pkg/mis/store/enrollment_tokens.go: single-use enrollment tokens and the
-- outcomes that are kept for a retry.
pub mod SingleUse
use specification_enhancemen.Prelude.{
  ℕ, ◌+◌, String, ◌==◌, Bool, true, false, ◌&&◌, ◌||◌, not, none, some, List, [], ◌∷◌, ◌++◌, Result,
  ok, err, if◌then◌else◌, ltb, eqb, any, find, select, modify, length,
}
use specification_enhancemen.Instant.{Instant}
use specification_enhancemen.Errors.{TokenErr}
use specification_enhancemen.Store.{EnrollmentToken, TokenStatus, consumed, Outcome, Db}

abbrev pub is_consumed : TokenStatus → Bool
is_consumed consumed = true
is_consumed TokenStatus.active = false

abbrev pub has_secret : String → EnrollmentToken → Bool
has_secret h t = t.secret_hash == h

abbrev pub has_token_id : String → EnrollmentToken → Bool
has_token_id id t = t.token_id == id

abbrev pub outcome_of : String → Outcome → Bool
outcome_of id o = o.token_id == id

-- Create; `id` and `hash` come from the random draws of this call, and a TTL that is not positive
-- counts as 0.
unfoldable pub create_token : String → String → ℕ → Instant → Db → Result TokenErr Instant × Db
create_token id hash ttl now db =
    if eqb ttl 0
    then (err TokenErr.bad_ttl, db)
    else if any (has_token_id id) db.enrollment_tokens || any (has_secret hash) db.enrollment_tokens
    then (err TokenErr.constraint_failed, db)
    else (
      ok (now + ttl),
      record db {
        enrollment_tokens =
            db.enrollment_tokens
            ++ record {
              token_id = id;
              secret_hash = hash;
              status = TokenStatus.active;
              expires_at = now + ttl;
              created_at = now;
              consumed_at = none;
            }
              ∷ [];
      },
    )

-- WHERE token_id = ? AND status = 'active'
abbrev pub is_claimable : String → EnrollmentToken → Bool
is_claimable id t = has_token_id id t && not (is_consumed t.status)

-- UPDATE enrollment_tokens SET status = 'consumed', consumed_at = ?
unfoldable pub claim : String → Instant → List EnrollmentToken → List EnrollmentToken
claim id now =
    modify (is_claimable id) (λ t. record t { status = consumed; consumed_at = some now })

-- Consume; `!now.Before(expiresAt)` is compared as instants, after time.Parse.
unfoldable pub consume : String → Instant → Db → Result TokenErr String × Db
unfolding claim
consume hash now db = elim (find (has_secret hash) db.enrollment_tokens) [
  | none ↦ (err TokenErr.not_found, db)
  | some t ↦
      if not (ltb now t.expires_at)
      then (err TokenErr.expired, db)
      else if is_consumed t.status
      then (err TokenErr.already_used, db)
      else if not (eqb (length (select (is_claimable t.token_id) db.enrollment_tokens)) 1)
      then (err TokenErr.already_used, db)
      else (
        ok t.token_id,
        record db { enrollment_tokens = claim t.token_id now db.enrollment_tokens },
      )
]

-- FindConsumed: the token joined with its outcome
unfoldable pub find_consumed : String → Instant → Db → Result TokenErr (String × Outcome)
find_consumed hash now db = elim (find (has_secret hash) db.enrollment_tokens) [
  | none ↦ err TokenErr.not_found
  | some t ↦ elim (find (outcome_of t.token_id) db.enrollment_token_outcomes) [
    | none ↦ err TokenErr.not_found
    | some o ↦
        if ltb o.retry_window_ends now
        then err TokenErr.retry_window_expired
        else ok (t.token_id, o)
  ]
]

-- RecordOutcome: PRIMARY KEY token_id, REFERENCES enrollment_tokens
unfoldable pub record_outcome : Outcome → Db → Result TokenErr (Unit {0}) × Db
record_outcome o db =
    if o.token_id == "" || o.svid_profile_uri == "" || o.csr_pub_key_sha256 == ""
    then (err TokenErr.incomplete_outcome, db)
    else if any (outcome_of o.token_id) db.enrollment_token_outcomes
    then (err TokenErr.outcome_exists, db)
    else if not (any (has_token_id o.token_id) db.enrollment_tokens)
    then (err TokenErr.constraint_failed, db)
    else (ok tt, record db { enrollment_token_outcomes = db.enrollment_token_outcomes ++ o ∷ [] })
