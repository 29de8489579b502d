-- ===== src/Store/ReplacementTickets.antt =====
-- completed/miaf-poc/pkg/mis/store/replacement_tickets.go: operator tickets for a replacement.
pub mod SingleUse
use text.Mathlib.Text.{starts_with}
use specification_enhancemen.Prelude.{
  ℕ, ◌+◌, String, ◌<>◌, ◌==◌, Bool, ◌&&◌, ◌||◌, not, none, some, List, [], ◌∷◌, ◌++◌, Result, ok,
  err, if◌then◌else◌, ltb, eqb, any, find, select, modify, length,
}
use specification_enhancemen.Instant.{Instant}
use specification_enhancemen.Errors.{Err}
use specification_enhancemen.Store.{ReplacementTicket, TokenStatus, Db}
use specification_enhancemen.Store.Identities.{has_uuid}
use specification_enhancemen.Store.EnrollmentTokens.{is_consumed}

abbrev pub replacement_ticket_prefix : String
replacement_ticket_prefix = "margo-rt-v1."

abbrev pub has_ticket : String → ReplacementTicket → Bool
has_ticket h t = t.ticket_hash == h

-- WHERE ticket_hash = ? AND status = 'active'
abbrev pub is_open_ticket : String → ReplacementTicket → Bool
is_open_ticket h t = has_ticket h t && not (is_consumed t.status)

-- UPDATE replacement_tickets SET status = 'consumed', consumed_at = ?
unfoldable pub consume_ticket : String → Instant → List ReplacementTicket → List ReplacementTicket
consume_ticket h now =
    modify (is_open_ticket h)
      (λ t. record t { status = TokenStatus.consumed; consumed_at = some now })

-- `sha256` is crypto/sha256 on the bytes of the ticket.
module _ (sha256 : String → String) where
  -- Create; `secret` is the base64 text of the random draw of this call, and a TTL that is not
  -- positive counts as 0.
  unfoldable pub create_ticket :
      String → String → ℕ → Instant → Db → Result Err (String × Instant) × Db
  create_ticket secret ldi_uuid ttl now db =
      let wire = replacement_ticket_prefix <> secret in
      if eqb ttl 0 || ldi_uuid == ""
      then (err Err.bad_argument, db)
      else if not (any (has_uuid ldi_uuid) db.ldis)
      then (err Err.bad_argument, db)
      else if any (has_ticket (sha256 wire)) db.replacement_tickets
      then (err Err.constraint_failed, db)
      else (
        ok (wire, now + ttl),
        record db {
          replacement_tickets =
              db.replacement_tickets
              ++ record {
                ticket_hash = sha256 wire;
                ldi_uuid = ldi_uuid;
                status = TokenStatus.active;
                expires_at = now + ttl;
                created_at = now;
                consumed_at = none;
              }
                ∷ [];
        },
      )

  -- Validate
  unfoldable pub validate_ticket : String → Instant → Db → Result Err String × Db
  unfolding consume_ticket
  validate_ticket ticket now db =
      let h = sha256 ticket in
      if not (starts_with ticket replacement_ticket_prefix)
      then (err Err.replacement_not_authorized, db)
      else elim (find (has_ticket h) db.replacement_tickets) [
        | none ↦ (err Err.replacement_not_authorized, db)
        | some t ↦
            if not (ltb now t.expires_at) || is_consumed t.status
            then (err Err.replacement_not_authorized, db)
            else if not (eqb (length (select (is_open_ticket h) db.replacement_tickets)) 1)
            then (err Err.replacement_not_authorized, db)
            else (
              ok t.ldi_uuid,
              record db { replacement_tickets = consume_ticket h now db.replacement_tickets },
            )
      ]
