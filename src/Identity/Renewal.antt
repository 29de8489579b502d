-- ===== src/Identity/Renewal.antt =====
-- Renew of completed/miaf-poc/pkg/mis/identity/service.go.
pub mod Rotation
pub mod FailedIssue
use specification_enhancemen.Prelude.{Bool, not, Result, ok, err, if◌then◌else◌, String}
use specification_enhancemen.Errors.{Err}
use specification_enhancemen.Platform.{Csr}
use specification_enhancemen.Store.{Ldi, Db}
use specification_enhancemen.Store.Identities.{get_ldi_by_spiffe_id}
use specification_enhancemen.Store.IssuedSvids.{leaf_by_active_spiffe_id}
use specification_enhancemen.Identity.{
  Service, Call, EnrollmentResult, is_active, issue_and_record, revoke_active_priors,
  check_rotation,
}

-- What Renew does once the key check has passed
unfoldable pub renew_checked :
    Service → Call → Ldi → Csr → Bool → Db → Result Err EnrollmentResult × Db
renew_checked s c ldi csr changed db =
    issue_and_record s c ldi csr "renewal" 200
      (if changed then (revoke_active_priors c.now ldi.spiffe_id "key-rotation" db).1 else db)

-- Renew
unfoldable pub renew : Service → Call → String → Csr → Db → Result Err EnrollmentResult × Db
unfolding renew_checked
renew s c spiffe_id csr db = elim (get_ldi_by_spiffe_id spiffe_id db) [
  | err e ↦ (err e, db)
  | ok ldi ↦
      if not (is_active ldi.status)
      then (err Err.not_found, db)
      else elim (leaf_by_active_spiffe_id spiffe_id c.now db) [
        | err e ↦ (err e, db)
        | ok current ↦ elim (check_rotation s current csr) [
          | err e ↦ (err e, db)
          | ok changed ↦ renew_checked s c ldi csr changed db
        ]
      ]
]
