-- ===== src/Store/IssuedSvids.antt =====
-- completed/miaf-poc/pkg/mis/store/issued_svids.go: the issuance audit.
pub mod Expiry
use specification_enhancemen.Prelude.{
  String, ◌==◌, Bool, true, ◌&&◌, not, none, some, List, [], ◌∷◌, ◌++◌, Result, ok, err,
  if◌then◌else◌, any, find, select, modify, order_by,
}
use specification_enhancemen.Instant.{Instant, text_lt}
use specification_enhancemen.Errors.{Err}
use specification_enhancemen.Store.{IssuedSvid, Db}
use specification_enhancemen.Store.Identities.{has_uuid}

abbrev pub has_serial : String → IssuedSvid → Bool
has_serial s r = r.serial_hex == s

-- A row that the new one may not meet: UNIQUE fingerprint_hex, under another serial
abbrev pub clashes : IssuedSvid → IssuedSvid → Bool
clashes rec r = r.fingerprint_hex == rec.fingerprint_hex && not (has_serial rec.serial_hex r)

-- INSERT … ON CONFLICT(serial_hex) DO UPDATE
unfoldable pub upsert : IssuedSvid → List IssuedSvid → List IssuedSvid
upsert rec rows =
    if any (has_serial rec.serial_hex) rows
    then modify (has_serial rec.serial_hex) (λ _. rec) rows
    else rows ++ rec ∷ []

-- Record
unfoldable pub record_svid : IssuedSvid → Db → Result Err (Unit {0}) × Db
unfolding upsert
record_svid rec db =
    if not (any (has_uuid rec.ldi_uuid) db.ldis)
    then (err Err.constraint_failed, db)
    else if any (clashes rec) db.issued_svids
    then (err Err.constraint_failed, db)
    else (ok tt, record db { issued_svids = upsert rec db.issued_svids })

-- WHERE spiffe_id = ? AND revoked = 0 AND not_after > ?
unfoldable pub is_outstanding : String → Instant → IssuedSvid → Bool
is_outstanding spiffe_id now r =
    r.spiffe_id == spiffe_id && not r.revoked && text_lt now r.not_after

-- ActiveBySPIFFEID, ORDER BY issued_at ASC
unfoldable pub active_by_spiffe_id : String → Instant → Db → List IssuedSvid
active_by_spiffe_id spiffe_id now db =
    order_by (λ a b. not (text_lt b.issued_at a.issued_at))
      (select (is_outstanding spiffe_id now) db.issued_svids)

-- UPDATE issued_svids SET revoked = 1, revoked_at = ? WHERE serial_hex = ?
unfoldable pub mark_rows : String → Instant → List IssuedSvid → List IssuedSvid
mark_rows serial when =
    modify (has_serial serial) (λ r. record r { revoked = true; revoked_at = some when })

-- MarkRevoked
unfoldable pub mark_revoked : String → Instant → Db → Result Err (Unit {0}) × Db
unfolding mark_rows
mark_revoked serial when db =
    if any (has_serial serial) db.issued_svids
    then (ok tt, record db { issued_svids = mark_rows serial when db.issued_svids })
    else (err Err.not_found, db)

-- LeafByActiveSPIFFEID, ORDER BY issued_at DESC LIMIT 1
unfoldable pub leaf_by_active_spiffe_id : String → Instant → Db → Result Err IssuedSvid
leaf_by_active_spiffe_id spiffe_id now db =
    elim (find (λ _. true)
      (order_by (λ a b. not (text_lt a.issued_at b.issued_at))
        (select (is_outstanding spiffe_id now) db.issued_svids))) [
          | none ↦ err Err.not_found
          | some r ↦ ok r
        ]
