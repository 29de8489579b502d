-- ===== src/Identity/Enrollment.antt =====
-- Enroll of completed/miaf-poc/pkg/mis/identity/service.go, with handleInitial,
-- handleReplacement and handleReEnrollment.
pub mod Inversion
pub mod Effects
pub mod Consistency
pub mod Tokens
pub mod Binding
use specification_enhancemen.Prelude.{
  ◌==◌, Bool, false, not, Option, none, some, Result, ok, err, if◌then◌else◌, String,
}
use specification_enhancemen.Errors.{Err}
use specification_enhancemen.Platform.{Csr}
use specification_enhancemen.Store.{Ldi, BindingStatus, bound, Db}
use specification_enhancemen.Store.Identities.{lookup_by_esi, create_ldi_and_bind, rebind, get_ldi}
use specification_enhancemen.Store.IssuedSvids.{leaf_by_active_spiffe_id}
use specification_enhancemen.Identity.{
  Service, Call, VerifiedBootstrap, ReplacementAuthorization, EnrollmentResult, is_active,
  operator_ticket_method, validate_replacement, issue_and_record, revoke_active_priors,
  check_rotation,
}

-- handleInitial
unfoldable pub handle_initial :
    Service → Call → VerifiedBootstrap → Csr → Db → Result Err EnrollmentResult × Db
handle_initial s c vb csr db =
    if not s.policy.new_ldi
    then (err Err.new_ldi_forbidden, db)
    else let (created, db₁) =
        create_ldi_and_bind c.fresh_uuid c.now vb.esi vb.method s.trust_domain db in
      elim created [
        | err e ↦ (err e, db₁)
        | ok ldi ↦ issue_and_record s c ldi csr vb.method 201 db₁
      ]

-- What handleReplacement does for a ticket that has been consumed
unfoldable pub replace_onto :
    Service → Call → VerifiedBootstrap → Csr → String → Db → Result Err EnrollmentResult × Db
replace_onto s c vb csr ldi_uuid db = elim (get_ldi ldi_uuid db) [
  | err _ ↦ (err Err.replacement_not_authorized, db)
  | ok target ↦
      if not (is_active target.status)
      then (err Err.replacement_not_authorized, db)
      else let (rebound, db₁) = rebind c.now target.uuid vb.esi vb.method db in
        elim rebound [
          | err e ↦ (err e, db₁)
          | ok _ ↦
              issue_and_record s c target csr vb.method 200
                (revoke_active_priors c.now target.spiffe_id "replacement" db₁).1
        ]
]

-- handleReplacement
unfoldable pub handle_replacement :
    Service
    → Call
    → VerifiedBootstrap
    → Csr
    → ReplacementAuthorization
    → Db
    → Result Err EnrollmentResult × Db
unfolding replace_onto
handle_replacement s c vb csr repl db =
    if not (repl.method == operator_ticket_method)
    then (err Err.unsupported_replacement_method, db)
    else let (validated, db₁) =
        validate_replacement s.replacement s.platform.sha256 repl.ticket c.now db in
      elim validated [ err e ↦ (err e, db₁) | ok ldi_uuid ↦ replace_onto s c vb csr ldi_uuid db₁ ]

-- The key check of handleReEnrollment: no outstanding SVID is no rotation
unfoldable pub re_enrollment_check : Service → Call → Ldi → Csr → Db → Result Err Bool
re_enrollment_check s c ldi csr db = elim (leaf_by_active_spiffe_id ldi.spiffe_id c.now db) [
  | err _ ↦ ok false
  | ok current ↦ check_rotation s current csr
]

-- handleReEnrollment
unfoldable pub handle_re_enrollment :
    Service → Call → Ldi → Csr → String → Db → Result Err EnrollmentResult × Db
unfolding re_enrollment_check
handle_re_enrollment s c ldi csr method db =
    if not (is_active ldi.status)
    then (err Err.replacement_not_authorized, db)
    else elim (re_enrollment_check s c ldi csr db) [
      | err e ↦ (err e, db)
      | ok _ ↦
          issue_and_record s c ldi csr method 200
            (revoke_active_priors c.now ldi.spiffe_id "re-enrollment" db).1
    ]

-- Enroll
unfoldable pub enroll :
    Service
    → Call
    → VerifiedBootstrap
    → Csr
    → Option ReplacementAuthorization
    → Db
    → Result Err EnrollmentResult × Db
enroll s c vb csr repl db = elim (lookup_by_esi vb.esi db) [
  | err _ ↦ elim repl [
    | some r ↦ handle_replacement s c vb csr r db
    | none ↦ handle_initial s c vb csr db
  ]
  | ok (binding, ldi) ↦ elim binding.status [
    | bound ↦ elim repl [
      | some _ ↦ (err Err.spurious_replacement_authorization, db)
      | none ↦ handle_re_enrollment s c ldi csr vb.method db
    ]
    | BindingStatus.retired ↦ (err Err.replacement_not_authorized, db)
  ]
]
