-- ===== src/Identity/Enrollment/Binding.antt =====
-- Enroll of identity/service.go and the binding of the presented ESI.
use specification_enhancemen.Prelude.{
  String, Bool, true, ◌&&◌, Option, some, List, [], ◌∷◌, ◌++◌, ◌≡◌, ap, sym, arith, Result, ok, any,
  any-append, any-found, find, find-some, str_eq_refl, ◌∙◌, str_eq→≡,
}
use specification_enhancemen.Errors.{Err}
use specification_enhancemen.Platform.{Csr}
use specification_enhancemen.Store.{Ldi, EsiBinding, bound, Db}
use specification_enhancemen.Store.Identities.{
  has_esi, has_uuid, is_bound_to, lookup_by_esi, create_ldi_and_bind, insert_ldi, insert_binding,
  rebind, retire_bindings,
}
use specification_enhancemen.Store.Identities.Consistency.{new_binding}
use specification_enhancemen.Identity.{
  Service, Call, VerifiedBootstrap, ReplacementAuthorization, EnrollmentResult, is_active,
}
use specification_enhancemen.Identity.Issuing.{issue_and_record-AuditOnly, issue_and_record-ok}
use specification_enhancemen.Identity.Enrollment.{enroll}
use specification_enhancemen.Identity.Enrollment.Inversion.{
  initially, by_replacement, again, enroll-ok,
}
use specification_enhancemen.Identity.Enrollment.Effects.{revoke_and_issue-AuditOnly}

-- The ESI is actively bound to this LDI.
abbrev pub binds : String → Ldi → EsiBinding → Bool
binds esi l b = has_esi esi b && is_bound_to l.uuid b

binds-new_binding :
    (c : Call) (esi method : String) (l : Ldi) (rows : List EsiBinding)
    → any (binds esi l) (rows ++ new_binding l.uuid c.now esi method ∷ []) ≡ true
binds-new_binding c esi method l rows =
    any-append (binds esi l) rows _ ∙ ground (arith, str_eq_refl esi, str_eq_refl l.uuid)

bindings-create :
    (c : Call) (esi method trust_domain : String) (db db₁ : Db) (l : Ldi)
    → create_ldi_and_bind c.fresh_uuid c.now esi method trust_domain db ≡ (ok l, db₁)
    → (any (binds esi l) db₁.esi_bindings ≡ true) × (is_active l.status ≡ true)
unfolding create_ldi_and_bind insert_ldi insert_binding
bindings-create c esi method trust_domain db db₁ l h =
    let named : l.uuid ≡ c.fresh_uuid = ground arith in
    let rows : db₁.esi_bindings
        ≡ db.esi_bindings ++ new_binding c.fresh_uuid c.now esi method ∷ [] =
      ground arith in
    (rw (rows, ← named) (binds-new_binding c esi method l db.esi_bindings), ground arith)

bindings-rebind :
    (c : Call) (l : Ldi) (esi method : String) (db db₁ : Db) (b : EsiBinding)
    → rebind c.now l.uuid esi method db ≡ (ok b, db₁)
    → any (binds esi l) db₁.esi_bindings ≡ true
unfolding rebind insert_binding
bindings-rebind c l esi method db db₁ b h =
    let kept = retire_bindings c.now l.uuid db.esi_bindings in
    let rows : db₁.esi_bindings ≡ kept ++ new_binding l.uuid c.now esi method ∷ [] = ground arith in
    rw rows (binds-new_binding c esi method l kept)

binds-lookup :
    (esi : String) (b : EsiBinding) (l : Ldi) (db : Db)
    → lookup_by_esi esi db ≡ ok (b, l)
    → b.status ≡ bound
    → any (binds esi l) db.esi_bindings ≡ true
unfolding lookup_by_esi
binds-lookup esi b l db h e =
    let row : find (has_esi esi) db.esi_bindings ≡ some b = ground arith in
    let owner : find (has_uuid b.ldi_uuid) db.ldis ≡ some l = ground arith in
    let named : l.uuid ≡ b.ldi_uuid = str_eq→≡ l.uuid b.ldi_uuid (find-some _ db.ldis l owner) in
    let own = find-some (has_esi esi) db.esi_bindings b row in
    any-found (has_esi esi) (binds esi l) db.esi_bindings b row
      (rw own (rw named (ground (arith, str_eq_refl b.ldi_uuid))))

-- After a successful Enroll the presented ESI is actively bound to the LDI of the result, and that
-- LDI was active when it was read.
pub enroll-binds :
    (s : Service) (c : Call) (vb : VerifiedBootstrap) (csr : Csr)
    (repl : Option ReplacementAuthorization) (db : Db) (res : EnrollmentResult) (db' : Db)
    → enroll s c vb csr repl db ≡ (ok res, db')
    → (any (binds vb.esi res.ldi) db'.esi_bindings ≡ true) × (is_active res.ldi.status ≡ true)
enroll-binds s c vb csr repl db res db' h = elim (enroll-ok s c vb csr repl db res db' h) [
  | initially miss e i ↦
      let made = issue_and_record-ok s c i.ldi csr vb.method 201 i.db₁ res db' i.issued in
      let kept : db'.esi_bindings ≡ i.db₁.esi_bindings =
        ap (λ (m : Result Err EnrollmentResult × Db). m.1.esi_bindings) (sym i.issued)
        ∙ (issue_and_record-AuditOnly s c i.ldi csr vb.method 201 i.db₁).esi_bindings in
      rw (kept, made.1) (bindings-create c vb.esi vb.method s.trust_domain db i.db₁ i.ldi i.created)
  | by_replacement r miss e k ↦
      let made = issue_and_record-ok s c k.target csr vb.method 200 _ res db' k.issued in
      let kept : db'.esi_bindings ≡ k.db₂.esi_bindings =
        ap (λ (m : Result Err EnrollmentResult × Db). m.1.esi_bindings) (sym k.issued)
        ∙ (revoke_and_issue-AuditOnly s c k.target csr vb.method "replacement"
            k.db₂).esi_bindings in
      rw (kept, made.1)
        (bindings-rebind c k.target vb.esi vb.method k.db₁ k.db₂ k.binding k.rebound, k.is_live)
  | again b l found e live k ↦
      let made = issue_and_record-ok s c l csr vb.method 200 _ res db' k.issued in
      let kept : db'.esi_bindings ≡ db.esi_bindings =
        ap (λ (m : Result Err EnrollmentResult × Db). m.1.esi_bindings) (sym k.issued)
        ∙ (revoke_and_issue-AuditOnly s c l csr vb.method "re-enrollment" db).esi_bindings in
      rw (kept, made.1) (binds-lookup vb.esi b l db found e, k.is_live)
]
