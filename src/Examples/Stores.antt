-- ===== src/Examples/Stores.antt =====
-- Instances of the theorems on the stores.
use specification_enhancemen.Prelude.{
  String, ◌<>◌, All, length, inr, ◌+◌, ◌*◌, ◌<◌, ◌≤◌, true, false, none, List, [], ◌∷◌, ◌≡◌, ◌⊎◌,
  ◌↔◌, refl, arith, ok, err, eq_iff,
}
use specification_enhancemen.Instant.{Instant, second, text_lt}
use specification_enhancemen.Errors.{Err, TokenErr}
use specification_enhancemen.Store.{TokenStatus, RevocationEntry, Db}
use specification_enhancemen.Store.IssuedSvids.{is_outstanding}
use specification_enhancemen.Store.IssuedSvids.Expiry.{
  is_outstanding_bounds, is_outstanding_after_expiry,
}
use specification_enhancemen.Store.EnrollmentTokens.{consume}
use specification_enhancemen.Store.EnrollmentTokens.SingleUse.{here, next, consumes, consume_once}
use specification_enhancemen.Store.JwtReplay.{witness}
use specification_enhancemen.Store.JwtReplay.Replay.{WitnessCall}
use specification_enhancemen.Store.RenewalEvents.{RenewalEventsConfig, allow, record_renewal}
use specification_enhancemen.Store.RenewalEvents.Budget.{used, allow-record_renewal, allow_refuses}
use specification_enhancemen.Store.RevokedSvids.{list_revocations, prune_expired}
use specification_enhancemen.Store.RevokedSvids.Pruning.{list_revocations-prune_expired}
use specification_enhancemen.Store.ReplacementTickets.{validate_ticket}
use specification_enhancemen.Store.ReplacementTickets.SingleUse.{
  start, then_step, validates, validate_once,
}
use specification_enhancemen.Bootstrap.ReplayMemory.Agreement.{
  Action, asks, sweeps, memory_answers, sql_answers, memory_answers-sql_answers,
}
use specification_enhancemen.Examples.{at, platform, empty_db, one_token, spiffe_1, svid_a}

abbrev spent_token : Db
spent_token = (consume "hash-1" (at 200) one_token).1

first_claim : consume "hash-1" (at 200) one_token ≡ (ok "token-1", spent_token)
unfolding consume
first_claim = refl

consume_once_example :
    let after = (consume "hash-2" (at 210) spent_token).1 in
    (consume "hash-1" (at 220) after ≡ (err TokenErr.expired, after))
    ⊎ (consume "hash-1" (at 220) after ≡ (err TokenErr.already_used, after))
consume_once_example =
    consume_once "hash-1" "token-1" (at 200) (at 220) one_token spent_token
      (consume "hash-2" (at 210) spent_token).1 first_claim (next here (consumes "hash-2" (at 210)))

abbrev seen : Db
seen = (witness (at 10) "jti-1" (at 100) empty_db).1

first_witness : witness (at 10) "jti-1" (at 100) empty_db ≡ (ok tt, seen)
unfolding witness
first_witness = refl

abbrev others : WitnessCall
others = record { now = at 20; jti = "jti-2"; expires_at = at 50 }

abbrev limit : RenewalEventsConfig
limit = record { max_in_window = 1; window = at 60 }

allowed : (allow limit spiffe_1 (at 200) empty_db).0 ≡ true
unfolding allow
allowed = refl

allow-record_renewal_example :
    (used limit spiffe_1 (at 200) (record_renewal limit spiffe_1 (at 200) empty_db) ≤ 1)
    × (used limit "other" (at 200) (record_renewal limit spiffe_1 (at 200) empty_db)
        ≤ used limit "other" (at 200) empty_db)
allow-record_renewal_example =
    allow-record_renewal limit spiffe_1 "other" (at 200) empty_db allowed
      (ground (arith, eq_iff "other" spiffe_1))

-- One renewal in the window, and one before it
abbrev full_window : Db
full_window = record empty_db {
  renewal_events =
      record { spiffe_id = spiffe_1; recorded_at = at 100 }
      ∷ record { spiffe_id = spiffe_1; recorded_at = at 190 }
      ∷ [];
}

allow_full_test : allow limit spiffe_1 (at 200) full_window ≡ (false, at 50)
unfolding allow text_lt
allow_full_test = refl

allow_refuses_example :
    (((allow limit spiffe_1 (at 200) full_window).0 ≡ false)
      ↔ (1 ≤ used limit spiffe_1 (at 200) full_window))
    × ((0 < (allow limit spiffe_1 (at 200) full_window).1)
        ↔ (1 ≤ used limit spiffe_1 (at 200) full_window))
allow_refuses_example = allow_refuses limit spiffe_1 (at 200) full_window

-- A revocation that has expired at 200 and one that has not
abbrev revocation_until : String → Instant → RevocationEntry
revocation_until serial not_after = record {
  serial_hex = serial;
  fingerprint_hex = "fingerprint " <> serial;
  revoked_at = at 100;
  reason = "";
  not_after = not_after;
}

abbrev two_revoked : Db
two_revoked = record empty_db {
  revoked_svids = revocation_until "A1" (at 150) ∷ revocation_until "B2" (at 900) ∷ [];
}

list_revocations-prune_expired_example :
    (list_revocations (at 300) (prune_expired (at 200) two_revoked).1
      ≡ list_revocations (at 300) two_revoked)
    × All
        (λ e. text_lt (at 200) e.not_after ≡ true)
        (prune_expired (at 200) two_revoked).1.revoked_svids
    × ((prune_expired (at 200) two_revoked).0
          + length (prune_expired (at 200) two_revoked).1.revoked_svids
        ≡ 2)
list_revocations-prune_expired_example =
    list_revocations-prune_expired (at 200) (at 300) two_revoked (inr (omega arith))

is_outstanding_bounds_example :
    (is_outstanding spiffe_1 (at 200) svid_a ≡ true)
    × (is_outstanding spiffe_1 (at 950) svid_a ≡ false)
is_outstanding_bounds_example =
    is_outstanding_bounds spiffe_1 (at 200) (at 950) svid_a refl refl (omega arith) (omega arith)

is_outstanding_after_expiry_example :
    (svid_a.not_after < 900 * second + 5)
    × (is_outstanding spiffe_1 (900 * second + 5) svid_a ≡ true)
is_outstanding_after_expiry_example =
    is_outstanding_after_expiry 900 5 svid_a refl refl (omega arith) (omega arith)

abbrev actions : List Action
actions = asks (at 10) "jti-1" (at 100) ∷ sweeps (at 50) ∷ asks (at 60) "jti-1" (at 120) ∷ []

memory_answers-sql_answers_example :
    memory_answers actions (λ _. none) ≡ sql_answers actions empty_db
memory_answers-sql_answers_example =
    memory_answers-sql_answers 0 actions (λ _. none) empty_db
      (omega arith, (omega arith, (omega arith, tt))) (λ j t le. refl)

abbrev one_ticket : Db
one_ticket = record empty_db {
  replacement_tickets =
      record {
        ticket_hash = "sha256:margo-rt-v1.t1";
        ldi_uuid = "uuid-1";
        status = TokenStatus.active;
        expires_at = at 300;
        created_at = at 100;
        consumed_at = none;
      }
      ∷ [];
}

abbrev spent_ticket : Db
spent_ticket = (validate_ticket platform.sha256 "margo-rt-v1.t1" (at 200) one_ticket).1

first_ticket :
    validate_ticket platform.sha256 "margo-rt-v1.t1" (at 200) one_ticket
    ≡ (ok "uuid-1", spent_ticket)
unfolding validate_ticket
first_ticket = refl

validate_once_example :
    let after = (validate_ticket platform.sha256 "margo-rt-v1.t2" (at 210) spent_ticket).1 in
    validate_ticket platform.sha256 "margo-rt-v1.t1" (at 220) after
    ≡ (err Err.replacement_not_authorized, after)
validate_once_example =
    validate_once platform.sha256 "margo-rt-v1.t1" "uuid-1" (at 200) (at 220) one_ticket
      spent_ticket (validate_ticket platform.sha256 "margo-rt-v1.t2" (at 210) spent_ticket).1
      first_ticket (then_step start (validates "margo-rt-v1.t2" (at 210)))
