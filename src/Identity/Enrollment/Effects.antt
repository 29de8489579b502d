-- ===== src/Identity/Enrollment/Effects.antt =====
-- Enroll of identity/service.go and what it does to the audit and the tickets.
use specification_enhancemen.Prelude.{
  true, Option, none, some, ◌≡◌, refl, arith, ok, err, Result-cases, inl, inr, Bool-cases, String,
  ◌==◌, ◌≢◌,
}
use specification_enhancemen.Errors.{Err}
use specification_enhancemen.Platform.{Csr}
use specification_enhancemen.Store.{Ldi, Db}
use specification_enhancemen.Store.Identities.{
  lookup_by_esi, create_ldi_and_bind, insert_ldi, insert_binding,
}
use specification_enhancemen.Instant.{Instant}
use specification_enhancemen.Store.ReplacementTickets.{validate_ticket}
use specification_enhancemen.Identity.{
  Service, Call, VerifiedBootstrap, ReplacementAuthorization, EnrollmentResult, is_active,
  operator_ticket_method, Replacements, no_replacements, operator_tickets, validate_replacement,
  issue_and_record, revoke_active_priors,
}
use specification_enhancemen.Identity.Revoking.{
  AuditOnly, AuditOnly-refl, revoke_active_priors-AuditOnly, revoke_active_priors-none_outstanding,
  AuditOnly-trans,
}
use specification_enhancemen.Identity.Issuing.{
  IsSole, issue_and_record-IsSole, issue_and_record-ok, issue_and_record-AuditOnly,
}
use specification_enhancemen.Identity.Enrollment.{
  handle_initial, handle_re_enrollment, re_enrollment_check, handle_replacement, enroll,
}
use specification_enhancemen.Identity.Enrollment.Inversion.{
  lookup_by_esi-err, initially, by_replacement, again, enroll-ok,
}

-- When Enroll hands out an SVID for an existing LDI (status 200: re-enrollment or replacement), every
-- SVID of that LDI's SPIFFE ID that is outstanding afterwards is the one handed out: all earlier
-- ones have been revoked. The new one is outstanding, unless its expiry has passed in the order of
-- the stored times.
pub enroll-IsSole :
    (s : Service) (c : Call) (vb : VerifiedBootstrap) (csr : Csr)
    (repl : Option ReplacementAuthorization) (db : Db) (res : EnrollmentResult) (db' : Db)
    → enroll s c vb csr repl db ≡ (ok res, db')
    → res.status_code ≡ 200
    → IsSole res.ldi.spiffe_id c.now res db'
enroll-IsSole s c vb csr repl db res db' h code = elim (enroll-ok s c vb csr repl db res db' h) [
  | initially miss e i ↦
      absurd
        (omega (arith, (issue_and_record-ok s c i.ldi csr vb.method 201 i.db₁ res db' i.issued).2))
  | by_replacement r miss e k ↦
      let made = issue_and_record-ok s c k.target csr vb.method 200 _ res db' k.issued in
      rw (made.1) (
        issue_and_record-IsSole s c k.target csr vb.method 200 _ res db'
          (revoke_active_priors-none_outstanding c.now k.target.spiffe_id "replacement" k.db₂)
          k.issued)
  | again b l found e live k ↦
      let made = issue_and_record-ok s c l csr vb.method 200 _ res db' k.issued in
      rw (made.1) (
        issue_and_record-IsSole s c l csr vb.method 200 _ res db'
          (revoke_active_priors-none_outstanding c.now l.spiffe_id "re-enrollment" db) k.issued)
]

tickets-create :
    (c : Call) (esi method trust_domain : String) (db : Db)
    → (create_ldi_and_bind c.fresh_uuid c.now esi method trust_domain db).1.replacement_tickets
      ≡ db.replacement_tickets
unfolding create_ldi_and_bind insert_ldi insert_binding
tickets-create c esi method trust_domain db = ground arith

tickets-handle_initial :
    (s : Service) (c : Call) (vb : VerifiedBootstrap) (csr : Csr) (db : Db)
    → (handle_initial s c vb csr db).1.replacement_tickets ≡ db.replacement_tickets
unfolding handle_initial
tickets-handle_initial s c vb csr db =
    let m = create_ldi_and_bind c.fresh_uuid c.now vb.esi vb.method s.trust_domain db in
    let kept = tickets-create c vb.esi vb.method s.trust_domain db in
    elim (Result-cases m.0) [
      | inr (x, e) ↦ ground arith
      | inl (ldi, e) ↦
          let rest =
            (issue_and_record-AuditOnly s c ldi csr vb.method 201 m.1).replacement_tickets in
          ground arith
    ]

-- What revokes first and issues then changes the audit and the revocation list only.
pub revoke_and_issue-AuditOnly :
    (s : Service) (c : Call) (ldi : Ldi) (csr : Csr) (method reason : String) (db : Db)
    → AuditOnly db
        (issue_and_record s c ldi csr method 200
          (revoke_active_priors c.now ldi.spiffe_id reason db).1).1
revoke_and_issue-AuditOnly s c ldi csr method reason db =
    AuditOnly-trans _ _ _ (revoke_active_priors-AuditOnly c.now ldi.spiffe_id reason db)
      (issue_and_record-AuditOnly s c ldi csr method 200 _)

pub handle_re_enrollment-AuditOnly :
    (s : Service) (c : Call) (ldi : Ldi) (csr : Csr) (method : String) (db : Db)
    → AuditOnly db (handle_re_enrollment s c ldi csr method db).1
unfolding handle_re_enrollment
handle_re_enrollment-AuditOnly s c ldi csr method db =
    let issued = revoke_and_issue-AuditOnly s c ldi csr method "re-enrollment" db in
    let nothing = AuditOnly-refl db in
    elim (Bool-cases (is_active ldi.status)) [
      | inr e ↦ rw e nothing
      | inl e ↦ elim (Result-cases (re_enrollment_check s c ldi csr db)) [
        | inr (x, f) ↦ rw (e, f) nothing
        | inl (b, f) ↦ rw (e, f) issued
      ]
    ]

-- A refused ticket changes nothing.
validate_replacement-err :
    (v : Replacements) (sha256 : String → String) (ticket : String) (now : Instant) (db : Db)
    (x : Err)
    → (validate_replacement v sha256 ticket now db).0 ≡ err x
    → (validate_replacement v sha256 ticket now db).1 ≡ db
unfolding validate_replacement validate_ticket
validate_replacement-err no_replacements sha256 ticket now db x h = refl
validate_replacement-err operator_tickets sha256 ticket now db x h = ground arith

handle_replacement-validates :
    (s : Service) (c : Call) (vb : VerifiedBootstrap) (csr : Csr) (r : ReplacementAuthorization)
    (db : Db)
    → (handle_replacement s c vb csr r db).1.replacement_tickets ≢ db.replacement_tickets
    → ((r.method == operator_ticket_method) ≡ true)
      × (u : String) × ((validate_replacement s.replacement s.platform.sha256 r.ticket c.now db).0
          ≡ ok u)
unfolding handle_replacement
handle_replacement-validates s c vb csr r db h =
    elim (Bool-cases (r.method == operator_ticket_method)) [
      | inr m ↦ absurd (h (rw (m, handle_replacement) refl))
      | inl m ↦
          elim (Result-cases
            (validate_replacement s.replacement s.platform.sha256 r.ticket c.now db).0) [
              | inl (u, v) ↦ (m, u, v)
              | inr (x, v) ↦
                  let same =
                    validate_replacement-err s.replacement s.platform.sha256 r.ticket c.now db x
                      v in
                  absurd (h (ground arith))
            ]
    ]

-- Enroll spends a ticket only for an ESI that was never bound, in a request that carries a
-- replacement authorization of the supported method whose ticket is valid at that moment.
pub enroll-spends_ticket :
    (s : Service) (c : Call) (vb : VerifiedBootstrap) (csr : Csr)
    (repl : Option ReplacementAuthorization) (db : Db)
    → (enroll s c vb csr repl db).1.replacement_tickets ≢ db.replacement_tickets
    → (lookup_by_esi vb.esi db ≡ err Err.not_found)
      × ((r : ReplacementAuthorization) × (repl ≡ some r)
          × ((r.method == operator_ticket_method) ≡ true)
          × (u : String) × ((validate_replacement s.replacement s.platform.sha256 r.ticket c.now
                db).0
              ≡ ok u))
unfolding enroll
enroll-spends_ticket s c vb csr none db h = elim (Result-cases (lookup_by_esi vb.esi db)) [
  | inr (x, e) ↦ absurd (h (rw (e, enroll) (tickets-handle_initial s c vb csr db)))
  | inl ((b, l), e) ↦
      let same = (handle_re_enrollment-AuditOnly s c l csr vb.method db).replacement_tickets in
      absurd (h (ground arith))
]
enroll-spends_ticket s c vb csr (some r) db h = elim (Result-cases (lookup_by_esi vb.esi db)) [
  | inl ((b, l), e) ↦ absurd (h (ground arith))
  | inr (x, e) ↦
      let spent =
        λ (same : (handle_replacement s c vb csr r db).1.replacement_tickets
            ≡ db.replacement_tickets).
          h (rw (e, enroll) same) in
      let valid = handle_replacement-validates s c vb csr r db spent in
      (lookup_by_esi-err vb.esi db x e, (r, refl, valid.0, valid.1, valid.2))
]
