-- ===== src/Store/RevokedSvids.antt =====
-- completed/miaf-poc/pkg/mis/store/revoked_svids.go: the revocation list.
pub mod Pruning
use text.Mathlib.Text.{is_lt}
use Prim.Native.String.{compare}
use specification_enhancemen.Prelude.{
  ℕ, String, ◌==◌, Bool, true, false, not, List, [], ◌∷◌, ◌++◌, if◌then◌else◌, ltb, any, select,
  length, order_by,
}
use specification_enhancemen.Instant.{Instant, text_lt}
use specification_enhancemen.Store.{RevocationEntry, Db}

abbrev pub lists_serial : String → RevocationEntry → Bool
lists_serial s e = e.serial_hex == s

-- Revoke: INSERT … ON CONFLICT(serial_hex) DO NOTHING; the first revocation stays.
unfoldable pub revoke : String → String → String → Instant → Instant → Db → Bool × Db
revoke serial fingerprint reason not_after now db =
    if any (lists_serial serial) db.revoked_svids then (false, db) else (
      true,
      record db {
        revoked_svids =
            db.revoked_svids
            ++ record {
              serial_hex = serial;
              fingerprint_hex = fingerprint;
              revoked_at = now;
              reason = reason;
              not_after = not_after;
            }
              ∷ [];
      },
    )

-- ORDER BY revoked_at ASC, serial_hex ASC
unfoldable pub listed_before : RevocationEntry → RevocationEntry → Bool
listed_before a b =
    if text_lt a.revoked_at b.revoked_at
    then true
    else if text_lt b.revoked_at a.revoked_at
    then false
    else not (is_lt (compare b.serial_hex a.serial_hex))

-- The loop of List: the latest RevokedAt, from time.Time{}
unfoldable pub latest_from : Instant → List RevocationEntry → Instant
latest_from latest [] = latest
latest_from latest (e ∷ es) =
    latest_from (if ltb latest e.revoked_at then e.revoked_at else latest) es

-- List
unfoldable pub list_revocations : Instant → Db → List RevocationEntry × Instant
unfolding listed_before latest_from
list_revocations now db =
    let entries : List RevocationEntry =
      order_by listed_before (select (λ e. text_lt now e.not_after) db.revoked_svids) in
    (entries, latest_from 0 entries)

-- PruneExpired: DELETE WHERE not_after <= ?
unfoldable pub prune_expired : Instant → Db → ℕ × Db
prune_expired now db = (
  length (select (λ e. not (text_lt now e.not_after)) db.revoked_svids),
  record db { revoked_svids = select (λ e. text_lt now e.not_after) db.revoked_svids },
)
