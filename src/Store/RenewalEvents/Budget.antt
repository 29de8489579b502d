-- ===== src/Store/RenewalEvents/Budget.antt =====
-- Allow and Record of store/renewal_events.go, and the count that they share.
use specification_enhancemen.Prelude.{
  ℕ, ◌+◌, ◌≤◌, ◌<◌, String, true, false, ◌≡◌, ◌≢◌, arith, select, length, length-select_append,
  length-select-select, [], ◌∷◌, ◌++◌, ◌↔◌, eq_iff, if◌then◌else◌,
}
use specification_enhancemen.Instant.{Instant, text_lt}
use specification_enhancemen.Store.{RenewalEvent, Db}
use specification_enhancemen.Store.RenewalEvents.{
  RenewalEventsConfig, cutoff, in_window, allow, record_renewal,
}

-- The renewals of the SPIFFE ID that count at this instant
abbrev pub used : RenewalEventsConfig → String → Instant → Db → ℕ
used cfg spiffe_id now db = length (select (in_window spiffe_id (cutoff cfg now)) db.renewal_events)

pub used-record_renewal :
    (cfg : RenewalEventsConfig) (spiffe_id other : String) (now : Instant) (db : Db)
    → used cfg other now (record_renewal cfg spiffe_id now db)
      ≤ used cfg other now db
        + (if in_window other (cutoff cfg now) (record { spiffe_id = spiffe_id; recorded_at = now })
            then 1
            else 0)
unfolding record_renewal
used-record_renewal cfg spiffe_id other now db =
    let event : RenewalEvent = record { spiffe_id = spiffe_id; recorded_at = now } in
    let q = in_window other (cutoff cfg now) in
    omega (
      arith,
      length-select-select q (λ e. text_lt (cutoff cfg now) e.recorded_at)
          (db.renewal_events ++ event ∷ []),
      length-select_append q db.renewal_events event,
    )

-- A renewal that Allow admits and that Record counts keeps the renewals in the window at or below
-- the maximum, and adds nothing to the count of another SPIFFE ID.
pub allow-record_renewal :
    (cfg : RenewalEventsConfig) (spiffe_id other : String) (now : Instant) (db : Db)
    → (allow cfg spiffe_id now db).0 ≡ true
    → other ≢ spiffe_id
    → (used cfg spiffe_id now (record_renewal cfg spiffe_id now db) ≤ cfg.max_in_window)
      × (used cfg other now (record_renewal cfg spiffe_id now db) ≤ used cfg other now db)
unfolding allow
allow-record_renewal cfg spiffe_id other now db h ne =
    let own = used-record_renewal cfg spiffe_id spiffe_id now db in
    let others = used-record_renewal cfg spiffe_id other now db in
    (ground arith, ground (arith, eq_iff spiffe_id other))

-- A renewal is refused exactly when the window is full, and Retry-After is positive exactly then.
pub allow_refuses :
    (cfg : RenewalEventsConfig) (spiffe_id : String) (now : Instant) (db : Db)
    → (((allow cfg spiffe_id now db).0 ≡ false) ↔ (cfg.max_in_window ≤ used cfg spiffe_id now db))
      × ((0 < (allow cfg spiffe_id now db).1) ↔ (cfg.max_in_window ≤ used cfg spiffe_id now db))
unfolding allow
allow_refuses cfg spiffe_id now db =
    ((λ h. ground arith, λ h. ground arith), (λ h. ground arith, λ h. ground arith))
