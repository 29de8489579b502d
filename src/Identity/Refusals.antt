-- ===== src/Identity/Refusals.antt =====
-- Enroll, Renew and IssueJWTSVID of identity/service.go and jwtsvid.go: their refusals.
use specification_enhancemen.Prelude.{
  ℕ, String, true, false, Option, none, List, ◌≡◌, refl, arith, Result, ok, err, Bool-cases, inl,
  inr, eqb, ◌==◌,
}
use specification_enhancemen.Instant.{Instant}
use specification_enhancemen.Errors.{Err}
use specification_enhancemen.Platform.{Csr}
use specification_enhancemen.Store.{Ldi, EsiBinding, IssuedSvid, Db}
use specification_enhancemen.Store.Identities.{is_bound, lookup_by_esi, get_ldi_by_spiffe_id}
use specification_enhancemen.Store.IssuedSvids.{leaf_by_active_spiffe_id}
use specification_enhancemen.Identity.{
  Service, Call, VerifiedBootstrap, ReplacementAuthorization, is_active, check_rotation,
  renewal_key_changed,
}
use specification_enhancemen.Identity.Enrollment.{handle_re_enrollment, enroll}
use specification_enhancemen.Identity.Renewal.{renew}
use specification_enhancemen.Identity.JwtSvid.{Claims, JwtSvidConfig, issue_jwt_svid}

-- The result is an error and no table changed.
abbrev pub IsRefused {ℓ} : {A : Type ℓ} → Db → Result Err A × Db → Type ℓ
IsRefused {A = A} db m = (x : Err) × (m ≡ (err x, db))

pub renew-inactive :
    (s : Service) (c : Call) (spiffe_id : String) (csr : Csr) (l : Ldi) (db : Db)
    → get_ldi_by_spiffe_id spiffe_id db ≡ ok l
    → is_active l.status ≡ false
    → renew s c spiffe_id csr db ≡ (err Err.not_found, db)
unfolding renew
renew-inactive s c spiffe_id csr l db h k = rw (h, renew) (rw k refl)

pub issue_jwt_svid-inactive :
    (sign : Claims → Option String) (now : Instant) (jti : String) (cfg : JwtSvidConfig)
    (spiffe_id : String) (audiences : List String) (requested : ℕ) (l : Ldi) (db : Db)
    → get_ldi_by_spiffe_id spiffe_id db ≡ ok l
    → is_active l.status ≡ false
    → IsRefused db (issue_jwt_svid sign now jti cfg spiffe_id audiences requested db)
unfolding issue_jwt_svid
issue_jwt_svid-inactive sign now jti cfg spiffe_id audiences requested l db h k =
    elim (Bool-cases (cfg.issuer == "")) [
      | inl e ↦ (Err.bad_argument, ground arith)
      | inr e ↦ elim (Bool-cases (eqb cfg.max_ttl 0)) [
        | inl f ↦ (Err.bad_argument, ground arith)
        | inr f ↦ (Err.not_found, ground arith)
      ]
    ]

-- An ESI that a replacement has retired gets nothing, with or without a ticket.
enroll-retired :
    (s : Service) (c : Call) (vb : VerifiedBootstrap) (csr : Csr)
    (repl : Option ReplacementAuthorization) (b : EsiBinding) (l : Ldi) (db : Db)
    → lookup_by_esi vb.esi db ≡ ok (b, l)
    → is_bound b.status ≡ false
    → enroll s c vb csr repl db ≡ (err Err.replacement_not_authorized, db)
unfolding enroll
enroll-retired s c vb csr repl b l db h k = ground arith

-- Without permission to rotate keys, a request for an active LDI with another key than that of the
-- newest outstanding SVID is refused, by Renew and by Enroll on an active binding, and changes no
-- table.
pub key_rotation-refused :
    (s : Service) (c : Call) (csr : Csr) (l : Ldi) (b : EsiBinding) (current : IssuedSvid)
    (vb : VerifiedBootstrap) (db : Db)
    → s.policy.key_rotation ≡ false
    → is_active l.status ≡ true
    → leaf_by_active_spiffe_id l.spiffe_id c.now db ≡ ok current
    → renewal_key_changed s.platform current.leaf_der csr ≡ ok true
    → get_ldi_by_spiffe_id l.spiffe_id db ≡ ok l
    → lookup_by_esi vb.esi db ≡ ok (b, l)
    → is_bound b.status ≡ true
    → (renew s c l.spiffe_id csr db ≡ (err Err.key_rotation_not_permitted, db))
      × (enroll s c vb csr none db ≡ (err Err.key_rotation_not_permitted, db))
unfolding renew enroll handle_re_enrollment check_rotation
key_rotation-refused s c csr l b current vb db p a h k g e f = (ground arith, ground arith)
