-- ===== src/Identity/Enrollment/Inversion.antt =====
-- The ways through Enroll of identity/service.go that succeed.
use specification_enhancemen.Prelude.{
  String, Bool, true, Option, none, some, ◌≡◌, refl, arith, ok, err, Result-cases, inl, inr, ◌==◌,
}
use specification_enhancemen.Errors.{Err}
use specification_enhancemen.Platform.{Csr}
use specification_enhancemen.Store.{Ldi, EsiBinding, bound, Db}
use specification_enhancemen.Store.Identities.{lookup_by_esi, create_ldi_and_bind, rebind, get_ldi}
use specification_enhancemen.Identity.{
  Service, Call, VerifiedBootstrap, ReplacementAuthorization, EnrollmentResult, is_active,
  operator_ticket_method, validate_replacement, issue_and_record, revoke_active_priors,
}
use specification_enhancemen.Identity.Enrollment.{
  handle_initial, replace_onto, handle_replacement, re_enrollment_check, handle_re_enrollment,
  enroll,
}

-- A lookup can only miss.
pub lookup_by_esi-err :
    (esi : String) (db : Db) (x : Err)
    → lookup_by_esi esi db ≡ err x
    → lookup_by_esi esi db ≡ err Err.not_found
unfolding lookup_by_esi
lookup_by_esi-err esi db x h = ground arith

module _ (s : Service) (c : Call) (vb : VerifiedBootstrap) (csr : Csr) where
  pub record Initial (db : Db) (res : EnrollmentResult) (db' : Db) : Type 0 where
    pub ldi : Ldi
    pub db₁ : Db
    pub allowed : s.policy.new_ldi ≡ true
    pub created :
        create_ldi_and_bind c.fresh_uuid c.now vb.esi vb.method s.trust_domain db ≡ (ok ldi, db₁)
    pub issued : issue_and_record s c ldi csr vb.method 201 db₁ ≡ (ok res, db')

  pub record Replacement (r : ReplacementAuthorization) (db : Db) (res : EnrollmentResult)
      (db' : Db) : Type 0 where
    pub ldi_uuid : String
    pub target : Ldi
    pub binding : EsiBinding
    pub db₁ : Db
    pub db₂ : Db
    pub method : (r.method == operator_ticket_method) ≡ true
    pub validated :
        validate_replacement s.replacement s.platform.sha256 r.ticket c.now db ≡ (ok ldi_uuid, db₁)
    pub found : get_ldi ldi_uuid db₁ ≡ ok target
    pub is_live : is_active target.status ≡ true
    pub rebound : rebind c.now target.uuid vb.esi vb.method db₁ ≡ (ok binding, db₂)
    pub issued :
        issue_and_record s c target csr vb.method 200
          (revoke_active_priors c.now target.spiffe_id "replacement" db₂).1
        ≡ (ok res, db')

  pub record ReEnrollment (binding : EsiBinding) (ldi : Ldi) (db : Db) (res : EnrollmentResult)
      (db' : Db) : Type 0 where
    pub changed : Bool
    pub is_live : is_active ldi.status ≡ true
    pub checked : re_enrollment_check s c ldi csr db ≡ ok changed
    pub issued :
        issue_and_record s c ldi csr vb.method 200
          (revoke_active_priors c.now ldi.spiffe_id "re-enrollment" db).1
        ≡ (ok res, db')

  pub data Enrolled (repl : Option ReplacementAuthorization) (db : Db) (res : EnrollmentResult)
      (db' : Db) : Type 0 where
    initially :
        lookup_by_esi vb.esi db ≡ err Err.not_found
        → repl ≡ none
        → Initial db res db'
        → Enrolled repl db res db'
    by_replacement :
        (r : ReplacementAuthorization)
        → lookup_by_esi vb.esi db ≡ err Err.not_found
        → repl ≡ some r
        → Replacement r db res db'
        → Enrolled repl db res db'
    again :
        (b : EsiBinding) (l : Ldi)
        → lookup_by_esi vb.esi db ≡ ok (b, l)
        → b.status ≡ bound
        → repl ≡ none
        → ReEnrollment b l db res db'
        → Enrolled repl db res db'

  handle_initial-ok :
      (db : Db) (res : EnrollmentResult) (db' : Db)
      → handle_initial s c vb csr db ≡ (ok res, db')
      → Initial db res db'
  unfolding handle_initial
  handle_initial-ok db res db' h =
      elim (Result-cases
        (create_ldi_and_bind c.fresh_uuid c.now vb.esi vb.method s.trust_domain db).0) [
          | inl (ldi, e) ↦ record {
            ldi = ldi;
            db₁ = (create_ldi_and_bind c.fresh_uuid c.now vb.esi vb.method s.trust_domain db).1;
            allowed = ground arith;
            created = ground arith;
            issued = ground arith;
          }
          | inr (x, e) ↦ absurd (ground arith)
        ]

  replace_onto-ok :
      (r : ReplacementAuthorization) (u : String) (db db₁ : Db) (res : EnrollmentResult) (db' : Db)
      → (r.method == operator_ticket_method) ≡ true
      → validate_replacement s.replacement s.platform.sha256 r.ticket c.now db ≡ (ok u, db₁)
      → replace_onto s c vb csr u db₁ ≡ (ok res, db')
      → Replacement r db res db'
  unfolding replace_onto
  replace_onto-ok r u db db₁ res db' m v h = elim (Result-cases (get_ldi u db₁)) [
    | inr (x, e) ↦ absurd (ground arith)
    | inl (target, e) ↦ elim (Result-cases (rebind c.now target.uuid vb.esi vb.method db₁).0) [
      | inr (x, f) ↦ absurd (ground arith)
      | inl (b, f) ↦ record {
        ldi_uuid = u;
        target = target;
        binding = b;
        db₁ = db₁;
        db₂ = (rebind c.now target.uuid vb.esi vb.method db₁).1;
        method = m;
        validated = v;
        found = e;
        is_live = ground arith;
        rebound = ground arith;
        issued = ground arith;
      }
    ]
  ]

  handle_replacement-ok :
      (r : ReplacementAuthorization) (db : Db) (res : EnrollmentResult) (db' : Db)
      → handle_replacement s c vb csr r db ≡ (ok res, db')
      → Replacement r db res db'
  unfolding handle_replacement
  handle_replacement-ok r db res db' h =
      let v = validate_replacement s.replacement s.platform.sha256 r.ticket c.now db in
      elim (Result-cases v.0) [
        | inr (x, e) ↦ absurd (ground arith)
        | inl (u, e) ↦
            replace_onto-ok r u db v.1 res db' (ground arith) (ground arith) (ground arith)
      ]

  handle_re_enrollment-ok :
      (b : EsiBinding) (ldi : Ldi) (db : Db) (res : EnrollmentResult) (db' : Db)
      → handle_re_enrollment s c ldi csr vb.method db ≡ (ok res, db')
      → ReEnrollment b ldi db res db'
  unfolding handle_re_enrollment
  handle_re_enrollment-ok b ldi db res db' h =
      elim (Result-cases (re_enrollment_check s c ldi csr db)) [
        | inr (x, e) ↦ absurd (ground arith)
        | inl (changed, e) ↦ record {
          changed = changed;
          is_live = ground arith;
          checked = e;
          issued = ground arith;
        }
      ]

  -- A successful Enroll went one of the three ways.
  pub enroll-ok :
      (repl : Option ReplacementAuthorization) (db : Db) (res : EnrollmentResult) (db' : Db)
      → enroll s c vb csr repl db ≡ (ok res, db')
      → Enrolled repl db res db'
  unfolding enroll
  enroll-ok none db res db' h = elim (Result-cases (lookup_by_esi vb.esi db)) [
    | inr (x, e) ↦
        initially (lookup_by_esi-err vb.esi db x e) refl
          (handle_initial-ok db res db' (ground arith))
    | inl ((b, l), e) ↦
        again b l e (ground arith) refl (handle_re_enrollment-ok b l db res db' (ground arith))
  ]
  enroll-ok (some r) db res db' h = elim (Result-cases (lookup_by_esi vb.esi db)) [
    | inr (x, e) ↦
        by_replacement r (lookup_by_esi-err vb.esi db x e) refl
          (handle_replacement-ok r db res db' (ground arith))
    | inl ((b, l), e) ↦ absurd (ground arith)
  ]
