-- ===== src/Identity/Enrollment/Consistency.antt =====
-- Enroll of identity/service.go and the consistency of the identity tables.
use specification_enhancemen.Prelude.{
  String, Option, none, some, ◌≡◌, ◌⊎◌, refl, arith, Result-cases, Bool-cases, inl, inr, ◌==◌,
}
use specification_enhancemen.Instant.{Instant}
use specification_enhancemen.Platform.{Csr}
use specification_enhancemen.Store.{BindingStatus, bound, Db}
use specification_enhancemen.Store.Identities.{lookup_by_esi, create_ldi_and_bind, rebind, get_ldi}
use specification_enhancemen.Store.Identities.Consistency.{
  IsConsistent, create_ldi_and_bind-IsConsistent, rebind-IsConsistent,
}
use specification_enhancemen.Store.ReplacementTickets.{validate_ticket}
use specification_enhancemen.Identity.{
  Service, Call, VerifiedBootstrap, ReplacementAuthorization, Replacements, no_replacements,
  operator_tickets, is_active, operator_ticket_method, validate_replacement,
}
use specification_enhancemen.Identity.Revoking.{AuditOnly}
use specification_enhancemen.Identity.Issuing.{issue_and_record-AuditOnly}
use specification_enhancemen.Identity.Enrollment.{
  handle_initial, replace_onto, handle_replacement, enroll,
}
use specification_enhancemen.Identity.Enrollment.Effects.{
  revoke_and_issue-AuditOnly, handle_re_enrollment-AuditOnly,
}

-- Consistency is a matter of the identity tables.
IsConsistent-same :
    (a b : Db) → b.ldis ≡ a.ldis → b.esi_bindings ≡ a.esi_bindings → IsConsistent a → IsConsistent b
IsConsistent-same a b l e h = record {
  uuids = rw l h.uuids;
  spiffe_ids = rw l h.spiffe_ids;
  esis = rw e h.esis;
  one_bound = rw e h.one_bound;
  owned = rw (l, e) h.owned;
}

pub IsConsistent-AuditOnly : (a b : Db) → AuditOnly a b → IsConsistent a → IsConsistent b
IsConsistent-AuditOnly a b k = IsConsistent-same a b k.ldis k.esi_bindings

status-cases : (x : BindingStatus) → (x ≡ bound) ⊎ (x ≡ BindingStatus.retired)
status-cases bound = inl refl
status-cases BindingStatus.retired = inr refl

module _ (s : Service) (c : Call) (vb : VerifiedBootstrap) (csr : Csr) where
  handle_initial-IsConsistent :
      (db : Db) → IsConsistent db → IsConsistent (handle_initial s c vb csr db).1
  unfolding handle_initial
  handle_initial-IsConsistent db h =
      let m = create_ldi_and_bind c.fresh_uuid c.now vb.esi vb.method s.trust_domain db in
      let kept : IsConsistent m.1 =
        create_ldi_and_bind-IsConsistent c.fresh_uuid c.now vb.esi vb.method s.trust_domain db h in
      elim (Bool-cases s.policy.new_ldi) [
        | inr e ↦ rw e h
        | inl e ↦ elim (Result-cases m.0) [
          | inr (x, f) ↦ rw e (rw f kept)
          | inl (l, f) ↦ rw e (
              rw f (
                IsConsistent-AuditOnly m.1 _
                  (issue_and_record-AuditOnly s c l csr vb.method 201 m.1) kept))
        ]
      ]

  replace_onto-IsConsistent :
      (u : String) (db : Db) → IsConsistent db → IsConsistent (replace_onto s c vb csr u db).1
  unfolding replace_onto
  replace_onto-IsConsistent u db h = elim (Result-cases (get_ldi u db)) [
    | inr (x, e) ↦ rw (e, replace_onto) h
    | inl (l, e) ↦
        let m = rebind c.now l.uuid vb.esi vb.method db in
        let kept : IsConsistent m.1 = rebind-IsConsistent c.now l.uuid vb.esi vb.method db h in
        elim (Bool-cases (is_active l.status)) [
          | inr f ↦ rw (e, replace_onto) (rw f h)
          | inl f ↦ elim (Result-cases m.0) [
            | inr (x, g) ↦ rw (e, replace_onto) (rw f (rw g kept))
            | inl (b, g) ↦
                rw (e, replace_onto)
                  (rw f (
                    rw g (
                      IsConsistent-AuditOnly m.1 _
                        (revoke_and_issue-AuditOnly s c l csr vb.method "replacement" m.1) kept)))
          ]
        ]
  ]

-- Validating a ticket does not touch the identity tables.
validate_replacement-IsConsistent :
    (v : Replacements) (sha256 : String → String) (ticket : String) (now : Instant) (db : Db)
    → IsConsistent db
    → IsConsistent (validate_replacement v sha256 ticket now db).1
unfolding validate_replacement validate_ticket
validate_replacement-IsConsistent no_replacements sha256 ticket now db h = h
validate_replacement-IsConsistent operator_tickets sha256 ticket now db h =
    IsConsistent-same db _ (ground arith) (ground arith) h

handle_replacement-IsConsistent :
    (s : Service) (c : Call) (vb : VerifiedBootstrap) (csr : Csr) (r : ReplacementAuthorization)
    (db : Db)
    → IsConsistent db
    → IsConsistent (handle_replacement s c vb csr r db).1
unfolding handle_replacement
handle_replacement-IsConsistent s c vb csr r db h =
    let m = validate_replacement s.replacement s.platform.sha256 r.ticket c.now db in
    let kept : IsConsistent m.1 =
      validate_replacement-IsConsistent s.replacement s.platform.sha256 r.ticket c.now db h in
    elim (Bool-cases (r.method == operator_ticket_method)) [
      | inr e ↦ rw e h
      | inl e ↦ elim (Result-cases m.0) [
        | inr (x, f) ↦ rw e (rw f kept)
        | inl (u, f) ↦ rw e (rw f (replace_onto-IsConsistent s c vb csr u m.1 kept))
      ]
    ]

-- Enroll keeps the identity tables consistent, on success and on every error: UUIDs, SPIFFE IDs and
-- ESIs stay unique, no LDI has two active bindings, and every binding belongs to an LDI.
pub enroll-IsConsistent :
    (s : Service) (c : Call) (vb : VerifiedBootstrap) (csr : Csr)
    (repl : Option ReplacementAuthorization) (db : Db)
    → IsConsistent db
    → IsConsistent (enroll s c vb csr repl db).1
unfolding enroll
enroll-IsConsistent s c vb csr none db h = elim (Result-cases (lookup_by_esi vb.esi db)) [
  | inr (x, e) ↦ rw (e, enroll) (handle_initial-IsConsistent s c vb csr db h)
  | inl ((b, l), e) ↦
      let kept =
        IsConsistent-AuditOnly db _ (handle_re_enrollment-AuditOnly s c l csr vb.method db) h in
      elim (status-cases b.status) [
        | inl f ↦ rw (e, enroll) (rw f kept)
        | inr f ↦ rw (e, enroll) (rw f h)
      ]
]
enroll-IsConsistent s c vb csr (some r) db h = elim (Result-cases (lookup_by_esi vb.esi db)) [
  | inr (x, e) ↦ rw (e, enroll) (handle_replacement-IsConsistent s c vb csr r db h)
  | inl ((b, l), e) ↦ elim (status-cases b.status) [
    | inl f ↦ rw (e, enroll) (rw f h)
    | inr f ↦ rw (e, enroll) (rw f h)
  ]
]
