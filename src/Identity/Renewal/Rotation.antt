-- ===== src/Identity/Renewal/Rotation.antt =====
-- Renew of identity/service.go: what a success has checked and done.
use specification_enhancemen.Prelude.{
  String, Bool, true, ◌≡◌, arith, Result, ok, Result-cases, inl, inr,
}
use specification_enhancemen.Errors.{Err}
use specification_enhancemen.Platform.{Csr}
use specification_enhancemen.Store.{Ldi, IssuedSvid, Db}
use specification_enhancemen.Store.Identities.{get_ldi_by_spiffe_id}
use specification_enhancemen.Store.IssuedSvids.{leaf_by_active_spiffe_id}
use specification_enhancemen.Identity.{
  Service, Call, EnrollmentResult, is_active, check_rotation, renewal_key_changed,
}
use specification_enhancemen.Identity.Revoking.{revoke_active_priors-none_outstanding}
use specification_enhancemen.Identity.Issuing.{IsSole, issue_and_record-IsSole}
use specification_enhancemen.Identity.Renewal.{renew_checked, renew}

-- Everything that a successful Renew has checked, and what it did
pub record Renewed (s : Service) (c : Call) (spiffe_id : String) (csr : Csr) (db : Db)
    (res : EnrollmentResult) (db' : Db) : Type 0 where
  pub ldi : Ldi
  pub current : IssuedSvid
  pub changed : Bool
  pub found : get_ldi_by_spiffe_id spiffe_id db ≡ ok ldi
  pub is_live : is_active ldi.status ≡ true
  pub newest : leaf_by_active_spiffe_id spiffe_id c.now db ≡ ok current
  pub checked : check_rotation s current csr ≡ ok changed
  pub issued : renew_checked s c ldi csr changed db ≡ (ok res, db')

pub renew-ok :
    (s : Service) (c : Call) (spiffe_id : String) (csr : Csr) (db : Db) (res : EnrollmentResult)
    (db' : Db)
    → renew s c spiffe_id csr db ≡ (ok res, db')
    → Renewed s c spiffe_id csr db res db'
unfolding renew
renew-ok s c spiffe_id csr db res db' h = elim (Result-cases (get_ldi_by_spiffe_id spiffe_id db)) [
  | inr (x, e) ↦ absurd (ground arith)
  | inl (l, e) ↦ elim (Result-cases (leaf_by_active_spiffe_id spiffe_id c.now db)) [
    | inr (x, f) ↦ absurd (ground arith)
    | inl (r, f) ↦ elim (Result-cases (check_rotation s r csr)) [
      | inr (x, g) ↦ absurd (ground arith)
      | inl (changed, g) ↦ record {
        ldi = l;
        current = r;
        changed = changed;
        found = e;
        is_live = ground arith;
        newest = f;
        checked = g;
        issued = ground arith;
      }
    ]
  ]
]

-- The answer of the check is the answer of the comparison.
check_rotation-ok :
    (s : Service) (current : IssuedSvid) (csr : Csr) (b d : Bool)
    → check_rotation s current csr ≡ ok b
    → renewal_key_changed s.platform current.leaf_der csr ≡ ok d
    → b ≡ d
unfolding check_rotation
check_rotation-ok s current csr b d h k = ground arith

-- What Renew did, told of the LDI and the answer that are known.
renewed_known :
    (s : Service) (c : Call) (csr : Csr) (ldi l : Ldi) (b d : Bool) (db : Db)
    (m : Result Err EnrollmentResult × Db)
    → ldi ≡ l
    → b ≡ d
    → renew_checked s c ldi csr b db ≡ m
    → renew_checked s c l csr d db ≡ m
renewed_known s c csr ldi l b d db m e f h = cc

-- After a renewal that succeeds with another key than that of the newest outstanding SVID, every
-- outstanding SVID of its SPIFFE ID is the new one, and the new one is outstanding, unless its expiry
-- has passed in the order of the stored times.
pub renew-IsSole :
    (s : Service) (c : Call) (csr : Csr) (l : Ldi) (current : IssuedSvid) (db : Db)
    (res : EnrollmentResult) (db' : Db)
    → get_ldi_by_spiffe_id l.spiffe_id db ≡ ok l
    → leaf_by_active_spiffe_id l.spiffe_id c.now db ≡ ok current
    → renewal_key_changed s.platform current.leaf_der csr ≡ ok true
    → renew s c l.spiffe_id csr db ≡ (ok res, db')
    → IsSole l.spiffe_id c.now res db'
unfolding renew_checked
renew-IsSole s c csr l current db res db' h k changed done =
    let r = renew-ok s c l.spiffe_id csr db res db' done in
    let newest : r.current ≡ current = ground (arith, r.newest) in
    let moved : renewal_key_changed s.platform r.current.leaf_der csr ≡ ok true =
      rw newest changed in
    let issued =
      renewed_known s c csr r.ldi l r.changed true db (ok res, db') (ground (arith, r.found))
        (check_rotation-ok s r.current csr r.changed true r.checked moved) r.issued in
    issue_and_record-IsSole s c l csr "renewal" 200 _ res db'
      (revoke_active_priors-none_outstanding c.now l.spiffe_id "key-rotation" db) issued
