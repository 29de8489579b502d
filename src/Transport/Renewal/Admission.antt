-- ===== src/Transport/Renewal/Admission.antt =====
-- handleRenewal of transport/http/renewal.go: whom it serves.
use specification_enhancemen.Prelude.{
  ℕ, ◌<◌, ◌≤◌, ◌+◌, if◌then◌else◌, String, Bool, true, false, Result, sym, some, ◌≡◌, refl, arith,
  ok, Option-cases, Result-cases, inl, inr, ap, ◌∙◌,
}
use specification_enhancemen.Errors.{Err}
use specification_enhancemen.Platform.{Csr}
use specification_enhancemen.CsrParsing.{parse_csr}
use specification_enhancemen.Store.{Ldi, Db}
use specification_enhancemen.Store.Identities.{get_ldi_by_spiffe_id}
use specification_enhancemen.Store.RenewalEvents.{allow, record_renewal}
use specification_enhancemen.Store.RenewalEvents.Budget.{used, used-record_renewal}
use specification_enhancemen.Identity.{Service, Call, is_active, EnrollmentResult}
use specification_enhancemen.Identity.Renewal.{renew, renew_checked}
use specification_enhancemen.Identity.Renewal.Rotation.{renew-ok}
use specification_enhancemen.Identity.Revoking.{AuditOnly}
use specification_enhancemen.Identity.Issuing.{issue_and_record-AuditOnly}
use specification_enhancemen.Identity.Enrollment.Effects.{revoke_and_issue-AuditOnly}
use specification_enhancemen.Bootstrap.{EnrollmentResponse}
use specification_enhancemen.Transport.{enrolled}
use specification_enhancemen.Transport.Enrollment.{EnrollmentRequest}
use specification_enhancemen.Transport.Renewal.{
  RenewalConfig, RenewalRequest, decode_spiffe_id_encoded, is_authenticated, renew_request,
  handle_renewal,
}

-- What a granted request went through
renew_request-enrolled :
    (s : Service) (c : Call) (cfg : RenewalConfig) (spiffe_id : String) (body : EnrollmentRequest)
    (response : EnrollmentResponse) (status_code : ℕ) (db db' : Db)
    → renew_request s c cfg spiffe_id body db ≡ (enrolled response status_code, db')
    → (csr : Csr) × (res : EnrollmentResult) × (db₁ : Db) × (renew s c spiffe_id csr db
        ≡ (ok res, db₁))
      × ((allow cfg.limit spiffe_id c.now db).0 ≡ true)
      × (db' ≡ record_renewal cfg.limit spiffe_id c.now db₁)
unfolding renew_request
renew_request-enrolled s c cfg spiffe_id body response status_code db db' h =
    elim (Result-cases (parse_csr s.platform body.csr)) [
      | inr (x, e) ↦ absurd (ground arith)
      | inl (csr, e) ↦ elim (Result-cases (renew s c spiffe_id csr db).0) [
        | inr (x, f) ↦ absurd (ground arith)
        | inl (res, f) ↦
            (csr, res, (renew s c spiffe_id csr db).1, ground arith, ground arith, ground arith)
      ]
    ]

renew_checked-AuditOnly :
    (s : Service) (c : Call) (l : Ldi) (csr : Csr) (changed : Bool) (db : Db)
    → AuditOnly db (renew_checked s c l csr changed db).1
unfolding renew_checked
renew_checked-AuditOnly s c l csr true db =
    revoke_and_issue-AuditOnly s c l csr "renewal" "key-rotation" db
renew_checked-AuditOnly s c l csr false db = issue_and_record-AuditOnly s c l csr "renewal" 200 db

pub counted-within :
    (before after most : ℕ) (b : Bool) {now : ℕ}
    → now ≡ before
    → before < most
    → after ≤ now + (if b then 1 else 0)
    → after ≤ most
counted-within before after most b same room within = ground arith

-- A successful Renew leaves the count alone, so that it fits with one renewal more.
renew-counted :
    (s : Service) (c : Call) (cfg : RenewalConfig) (spiffe_id : String) (csr : Csr)
    (res : EnrollmentResult) (db db₁ : Db)
    → renew s c spiffe_id csr db ≡ (ok res, db₁)
    → (allow cfg.limit spiffe_id c.now db).0 ≡ true
    → (l : Ldi) × (get_ldi_by_spiffe_id spiffe_id db ≡ ok l)
      × (is_active l.status ≡ true)
      × (used cfg.limit spiffe_id c.now db < cfg.limit.max_in_window)
      × (used cfg.limit spiffe_id c.now (record_renewal cfg.limit spiffe_id c.now db₁)
          ≤ cfg.limit.max_in_window)
unfolding allow
renew-counted s c cfg spiffe_id csr res db db₁ renewed allowed =
    let r = renew-ok s c spiffe_id csr db res db₁ renewed in
    let kept : db₁.renewal_events ≡ db.renewal_events =
      ap (λ (m : Result Err EnrollmentResult × Db). m.1.renewal_events) (sym r.issued)
      ∙ (renew_checked-AuditOnly s c r.ldi csr r.changed db).renewal_events in
    let room : used cfg.limit spiffe_id c.now db < cfg.limit.max_in_window = ground arith in
    let same : used cfg.limit spiffe_id c.now db₁ ≡ used cfg.limit spiffe_id c.now db =
      rw kept refl in
    let within = used-record_renewal cfg.limit spiffe_id spiffe_id c.now db₁ in
    (r.ldi, r.found, r.is_live, room, counted-within _ _ _ _ same room within)

-- A renewal is granted only for the SPIFFE ID that the path names and that the client certificate or
-- the bearer token proves, to an LDI that is active, and while the limit on renewals is not reached;
-- the renewals that count afterwards are within the limit.
pub handle_renewal-enrolled :
    (s : Service) (c : Call) (cfg : RenewalConfig) (req : RenewalRequest)
    (response : EnrollmentResponse) (status_code : ℕ) (db db' : Db)
    → handle_renewal s c cfg req db ≡ (enrolled response status_code, db')
    → (spiffe_id : String) × (l : Ldi) × (decode_spiffe_id_encoded s.platform req.spiffe_id_encoded
        ≡ some spiffe_id)
      × (is_authenticated cfg req spiffe_id ≡ true)
      × (get_ldi_by_spiffe_id spiffe_id db ≡ ok l)
      × (is_active l.status ≡ true)
      × (used cfg.limit spiffe_id c.now db < cfg.limit.max_in_window)
      × (used cfg.limit spiffe_id c.now db' ≤ cfg.limit.max_in_window)
unfolding handle_renewal
handle_renewal-enrolled s c cfg req response status_code db db' h =
    elim (Option-cases (decode_spiffe_id_encoded s.platform req.spiffe_id_encoded)) [
      | inl e ↦ absurd (ground arith)
      | inr (spiffe_id, e) ↦ elim (Option-cases req.body) [
        | inl f ↦ absurd (ground arith)
        | inr (body, f) ↦
            let served : renew_request s c cfg spiffe_id body db
                ≡ (enrolled response status_code, db') =
              ground arith in
            let (csr, res, db₁, renewed, allowed, counted) =
              renew_request-enrolled s c cfg spiffe_id body response status_code db db' served in
            let (l, found, live, room, fits) =
              renew-counted s c cfg spiffe_id csr res db db₁ renewed allowed in
            (spiffe_id, l, e, ground arith, found, live, room, rw counted fits)
      ]
    ]
