-- ===== src/Store/RenewalEvents.antt =====
-- completed/miaf-poc/pkg/mis/store/renewal_events.go: the sliding-window limit on renewals.
pub mod Budget
use specification_enhancemen.Prelude.{
  ℕ, ◌+◌, ◌-◌, String, ◌==◌, Bool, true, false, ◌&&◌, Option, none, some, List, [], ◌∷◌, ◌++◌,
  if◌then◌else◌, ltb, eqb, select, length,
}
use specification_enhancemen.Instant.{Instant, second, text_lt}
use specification_enhancemen.Store.{RenewalEvent, Db}

-- RenewalEventsConfig; the store's constructor panics unless both are positive.
pub record RenewalEventsConfig : Type 0 where
  pub max_in_window : ℕ
  pub window : ℕ

-- (*Store).RenewalEvents: `none` is the panic
unfoldable pub new_renewal_events : RenewalEventsConfig → Option RenewalEventsConfig
new_renewal_events cfg =
    if eqb cfg.max_in_window 0 then none else if eqb cfg.window 0 then none else some cfg

-- now.Add(-window); an instant before year 1 does not occur.
abbrev pub cutoff : RenewalEventsConfig → Instant → Instant
cutoff cfg now = now - cfg.window

-- WHERE spiffe_id = ? AND recorded_at > ?
abbrev pub in_window : String → Instant → RenewalEvent → Bool
in_window spiffe_id since e = e.spiffe_id == spiffe_id && text_lt since e.recorded_at

-- MIN(recorded_at), the least text
unfoldable pub earliest : List RenewalEvent → Option Instant
earliest [] = none
earliest (e ∷ es) = elim (earliest es) [
  | none ↦ some e.recorded_at
  | some t ↦ some (if text_lt t e.recorded_at then t else e.recorded_at)
]

-- Allow: whether a renewal may go on, and Retry-After if not
unfoldable pub allow : RenewalEventsConfig → String → Instant → Db → Bool × ℕ
unfolding earliest
allow cfg spiffe_id now db =
    let events = select (in_window spiffe_id (cutoff cfg now)) db.renewal_events in
    if ltb (length events) cfg.max_in_window then (true, 0) else elim (earliest events) [
      | none ↦ (false, second)
      | some t ↦ let retry = t + cfg.window - now in (false, if eqb retry 0 then second else retry)
    ]

-- Record: the insertion, then DELETE WHERE recorded_at <= ?
unfoldable pub record_renewal : RenewalEventsConfig → String → Instant → Db → Db
record_renewal cfg spiffe_id now db = record db {
  renewal_events =
      select (λ e. text_lt (cutoff cfg now) e.recorded_at)
        (db.renewal_events ++ record { spiffe_id = spiffe_id; recorded_at = now } ∷ []);
}
