-- ===== src/Identity/Revocation.antt =====
-- RevokeSPIFFEID of completed/miaf-poc/pkg/mis/identity/service.go.
pub mod Effective
pub mod Refused
pub mod Listed
use specification_enhancemen.Prelude.{Result, ok, err, if◌then◌else◌, String, List, [], ◌∷◌}
use specification_enhancemen.Instant.{Instant}
use specification_enhancemen.Errors.{Err}
use specification_enhancemen.Store.{LdiStatus, IssuedSvid, RevocationEntry, Db}
use specification_enhancemen.Store.Identities.{get_ldi_by_spiffe_id, set_ldi_status}
use specification_enhancemen.Store.IssuedSvids.{active_by_spiffe_id, mark_revoked}
use specification_enhancemen.Store.RevokedSvids.{revoke}

-- What RevokeSPIFFEID returns beside its error
pub record Revoked : Type 0 where
  pub newly_revoked : List RevocationEntry
  pub already_revoked : List String

-- The loop of RevokeSPIFFEID over the outstanding SVIDs
unfoldable pub revoke_all : Instant → String → List IssuedSvid → Db → Revoked × Db
revoke_all now reason [] db = (record { newly_revoked = []; already_revoked = [] }, db)
revoke_all now reason (p ∷ ps) db =
    let (newly, db₁) = revoke p.serial_hex p.fingerprint_hex reason p.not_after now db in
    let db₂ = (mark_revoked p.serial_hex now db₁).1 in
    let (rest, db₃) = revoke_all now reason ps db₂ in
    let entry : RevocationEntry = record {
      serial_hex = p.serial_hex;
      fingerprint_hex = p.fingerprint_hex;
      revoked_at = now;
      reason = reason;
      not_after = p.not_after;
    } in
    (
      if newly
          then record rest { newly_revoked = entry ∷ rest.newly_revoked }
          else record rest { already_revoked = p.serial_hex ∷ rest.already_revoked },
      db₃,
    )

-- RevokeSPIFFEID
unfoldable pub revoke_spiffe_id : Instant → String → String → Db → Result Err Revoked × Db
unfolding revoke_all
revoke_spiffe_id now spiffe_id reason db = elim (get_ldi_by_spiffe_id spiffe_id db) [
  | err e ↦ (err e, db)
  | ok ldi ↦
      let (revoked, db₁) = revoke_all now reason (active_by_spiffe_id spiffe_id now db) db in
      let (updated, db₂) = set_ldi_status now ldi.uuid LdiStatus.revoked db₁ in
      (elim updated [ err e ↦ err e | ok _ ↦ ok revoked ], db₂)
]
