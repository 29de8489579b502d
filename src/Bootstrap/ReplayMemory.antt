-- ===== src/Bootstrap/ReplayMemory.antt =====
-- completed/miaf-poc/pkg/mis/bootstrap/factorycertjwt/replay/store.go: MemoryStore. The map of seen
-- jtis is a function; the mutex makes each method one step.
pub mod Agreement
use specification_enhancemen.Prelude.{
  String, ◌==◌, Option, none, some, Result, ok, err, if◌then◌else◌, ltb,
}
use specification_enhancemen.Instant.{Instant}
use specification_enhancemen.Errors.{ReplayErr, replayed}

-- The field `seen`
abbrev pub Seen : Type 0
Seen = String → Option Instant

abbrev pub set_seen : String → Instant → Seen → Seen
set_seen jti expires_at seen j = if jti == j then some expires_at else seen j

-- Witness
unfoldable pub witness_memory :
    Instant → String → Instant → Seen → Result ReplayErr (Unit {0}) × Seen
witness_memory now jti expires_at seen = elim (seen jti) [
  | none ↦ (ok tt, set_seen jti expires_at seen)
  | some prev ↦ if ltb now prev then (err replayed, seen) else (ok tt, set_seen jti expires_at seen)
]

-- Sweep
unfoldable pub sweep : Instant → Seen → Seen
sweep now seen j = elim (seen j) [ none ↦ none | some exp ↦ if ltb now exp then some exp else none ]
