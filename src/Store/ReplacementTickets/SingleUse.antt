-- ===== src/Store/ReplacementTickets/SingleUse.antt =====
-- Validate of store/replacement_tickets.go among the operations of the ticket store.
use specification_enhancemen.Prelude.{
  ℕ, ◌+◌, String, ◌<>◌, true, none, some, [], ◌∷◌, ◌≡◌, refl, arith, Result, ok, err, if◌then◌else◌,
  find, find-modify, find-append_some, find-some, Option-cases, Result-cases, inl, inr, ap,
}
use mathlib.Core.Path.{subst}
use specification_enhancemen.Instant.{Instant}
use specification_enhancemen.Errors.{Err}
use specification_enhancemen.Store.{ReplacementTicket, TokenStatus, Db}
use specification_enhancemen.Store.EnrollmentTokens.{is_consumed}
use specification_enhancemen.Store.ReplacementTickets.{
  replacement_ticket_prefix, has_ticket, is_open_ticket, consume_ticket, create_ticket,
  validate_ticket,
}

module _ (sha256 : String → String) where
  -- The operations of the ticket store, with any arguments and any result
  pub data TicketStep (db : Db) : Db → Type 0 where
    mints :
        (secret ldi_uuid : String) (ttl : ℕ) (now : Instant)
        → TicketStep db (create_ticket sha256 secret ldi_uuid ttl now db).1
    validates :
        (ticket : String) (now : Instant) → TicketStep db (validate_ticket sha256 ticket now db).1

  pub data TicketSteps (db : Db) : Db → Type 0 where
    start : TicketSteps db db
    then_step : {a b : Db} → TicketSteps db a → TicketStep a b → TicketSteps db b

  -- The row of this ticket is there and consumed.
  record IsUsed (ticket : String) (db : Db) : Type 0 where
    row : ReplacementTicket
    found : find (has_ticket (sha256 ticket)) db.replacement_tickets ≡ some row
    used : is_consumed row.status ≡ true

  IsUsed-create_ticket :
      (ticket secret ldi_uuid : String) (ttl : ℕ) (now : Instant) (db : Db)
      → IsUsed ticket db
      → IsUsed ticket (create_ticket sha256 secret ldi_uuid ttl now db).1
  unfolding create_ticket
  IsUsed-create_ticket ticket secret ldi_uuid ttl now db h =
      let t : ReplacementTicket = record {
        ticket_hash = sha256 (replacement_ticket_prefix <> secret);
        ldi_uuid = ldi_uuid;
        status = TokenStatus.active;
        expires_at = now + ttl;
        created_at = now;
        consumed_at = none;
      } in
      let kept =
        find-append_some (has_ticket (sha256 ticket)) db.replacement_tickets (t ∷ []) h.row
          h.found in
      record { row = h.row; found = ground (arith, h.found, kept); used = h.used }

  IsUsed-validate_ticket :
      (ticket other : String) (now : Instant) (db : Db)
      → IsUsed ticket db
      → IsUsed ticket (validate_ticket sha256 other now db).1
  unfolding validate_ticket consume_ticket
  IsUsed-validate_ticket ticket other now db h =
      let moved =
        find-modify (has_ticket (sha256 ticket)) (is_open_ticket (sha256 other))
          (λ t. record t { status = TokenStatus.consumed; consumed_at = some now }) (λ t. refl)
          db.replacement_tickets h.row h.found in
      elim (Result-cases (validate_ticket sha256 other now db).0) [
        | inr (x, e) ↦ record { row = h.row; found = ground (arith, h.found); used = h.used }
        | inl (u, e) ↦ record {
          row =
              if is_open_ticket (sha256 other) h.row
              then record h.row { status = TokenStatus.consumed; consumed_at = some now }
              else h.row;
          found = ground (arith, moved);
          used = ground (arith, h.used);
        }
      ]

  IsUsed-TicketSteps :
      (ticket : String) {a b : Db} → TicketSteps a b → IsUsed ticket a → IsUsed ticket b
  IsUsed-TicketSteps ticket start h = h
  IsUsed-TicketSteps ticket (then_step {a} before (mints secret u ttl now)) h =
      IsUsed-create_ticket ticket secret u ttl now a (IsUsed-TicketSteps ticket before h)
  IsUsed-TicketSteps ticket (then_step {a} before (validates other now)) h =
      IsUsed-validate_ticket ticket other now a (IsUsed-TicketSteps ticket before h)

  validate_ticket-IsUsed :
      (ticket u : String) (now : Instant) (db : Db)
      → (validate_ticket sha256 ticket now db).0 ≡ ok u
      → IsUsed ticket (validate_ticket sha256 ticket now db).1
  unfolding validate_ticket consume_ticket
  validate_ticket-IsUsed ticket u now db e =
      elim (Option-cases (find (has_ticket (sha256 ticket)) db.replacement_tickets)) [
        | inl miss ↦ absurd (ground arith)
        | inr (t, hit) ↦
            let moved =
              find-modify (has_ticket (sha256 ticket)) (is_open_ticket (sha256 ticket))
                (λ t. record t { status = TokenStatus.consumed; consumed_at = some now })
                (λ t. refl) db.replacement_tickets t hit in
            record {
              row =
                  if is_open_ticket (sha256 ticket) t
                  then record t { status = TokenStatus.consumed; consumed_at = some now }
                  else t;
              found = ground (arith, moved);
              used =
                  ground
                    (arith, find-some (has_ticket (sha256 ticket)) db.replacement_tickets t hit);
            }
      ]

  -- Once Validate has accepted a ticket, it refuses that ticket ever after, at any time and after any
  -- operations of the ticket store, and changes no table.
  pub validate_once :
      (ticket u : String) (now later : Instant) (db db₁ db₂ : Db)
      → validate_ticket sha256 ticket now db ≡ (ok u, db₁)
      → TicketSteps db₁ db₂
      → validate_ticket sha256 ticket later db₂ ≡ (err Err.replacement_not_authorized, db₂)
  unfolding validate_ticket
  validate_once ticket u now later db db₁ db₂ e steps =
      let first =
        validate_ticket-IsUsed ticket u now db (ap (λ (m : Result Err String × Db). m.0) e) in
      let begun : IsUsed ticket db₁ =
        subst (λ (m : Result Err String × Db). IsUsed ticket m.1) e first in
      let spent = IsUsed-TicketSteps ticket steps begun in ground (arith, spent.found, spent.used)
