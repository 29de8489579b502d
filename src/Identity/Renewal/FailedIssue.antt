-- ===== src/Identity/Renewal/FailedIssue.antt =====
-- Renew of identity/service.go with a new key and an issuer that fails.
use specification_enhancemen.Prelude.{
  String, true, false, none, List, [], ◌∷◌, Bool-cases, inl, inr, ◌≡◌, refl, arith, ok, err, any,
  select-none,
}
use specification_enhancemen.Instant.{Instant, text_lt}
use specification_enhancemen.Instant.Order.{IsFrom, text_lt-IsFrom}
use specification_enhancemen.Errors.{Err}
use specification_enhancemen.Platform.{Csr}
use specification_enhancemen.Store.{Ldi, IssuedSvid, Db}
use specification_enhancemen.Store.Identities.{get_ldi_by_spiffe_id}
use specification_enhancemen.Store.IssuedSvids.{
  is_outstanding, active_by_spiffe_id, leaf_by_active_spiffe_id,
}
use specification_enhancemen.Identity.{
  Service, Call, is_active, renewal_key_changed, check_rotation, revoke_active_priors,
  issue_and_record,
}
use specification_enhancemen.Identity.Revoking.{
  get_ldi_by_spiffe_id-AuditOnly, revoke_active_priors-AuditOnly,
  revoke_active_priors-none_outstanding,
}
use specification_enhancemen.Identity.Renewal.{renew, renew_checked}

nothing-active_by_spiffe_id :
    (spiffe_id : String) (now : Instant) (db : Db)
    → any (is_outstanding spiffe_id now) db.issued_svids ≡ false
    → (active_by_spiffe_id spiffe_id now db ≡ [])
      × (leaf_by_active_spiffe_id spiffe_id now db ≡ err Err.not_found)
unfolding active_by_spiffe_id leaf_by_active_spiffe_id
nothing-active_by_spiffe_id spiffe_id now db h =
    let nothing = select-none (is_outstanding spiffe_id now) db.issued_svids h in
    (rw nothing refl, rw (nothing, leaf_by_active_spiffe_id) refl)

-- What is not outstanding is not outstanding in a later second.
any-outstanding_later :
    (spiffe_id : String) (now later : Instant) (rows : List IssuedSvid)
    → IsFrom now later
    → any (is_outstanding spiffe_id now) rows ≡ false
    → any (is_outstanding spiffe_id later) rows ≡ false
unfolding is_outstanding
any-outstanding_later spiffe_id now later [] from h = refl
any-outstanding_later spiffe_id now later (r ∷ rows) from h =
    let over = text_lt-IsFrom now later r.not_after from in
    elim (Bool-cases (text_lt later r.not_after)) [
      | inl e ↦
          let live = over e in ground (arith, any-outstanding_later spiffe_id now later rows from)
      | inr e ↦ ground (arith, any-outstanding_later spiffe_id now later rows from)
    ]

-- If the issuer fails in a renewal with another key than that of the newest outstanding SVID, which
-- the policy permits, then no SVID of the device is outstanding any more, and renewing again, at the
-- same instant or in any later second, is refused as of an unknown identity, whatever key it brings
-- and whatever the issuer does.
pub renew-issuer_failed :
    (s : Service) (c again : Call) (csr csr' : Csr) (l : Ldi) (current : IssuedSvid) (db : Db)
    → s.policy.key_rotation ≡ true
    → get_ldi_by_spiffe_id l.spiffe_id db ≡ ok l
    → is_active l.status ≡ true
    → leaf_by_active_spiffe_id l.spiffe_id c.now db ≡ ok current
    → renewal_key_changed s.platform current.leaf_der csr ≡ ok true
    → c.issue l.spiffe_id csr.der s.svid_ttl ≡ none
    → IsFrom c.now again.now
    → (db' : Db) × (renew s c l.spiffe_id csr db ≡ (err Err.issuer_failed, db'))
      × (active_by_spiffe_id l.spiffe_id c.now db' ≡ [])
      × (active_by_spiffe_id l.spiffe_id again.now db' ≡ [])
      × (renew s again l.spiffe_id csr' db' ≡ (err Err.not_found, db'))
unfolding renew check_rotation renew_checked issue_and_record
renew-issuer_failed s c again csr csr' l current db permitted known live newest changed failed
      from =
    let db' = (revoke_active_priors c.now l.spiffe_id "key-rotation" db).1 in
    let revoked = revoke_active_priors-none_outstanding c.now l.spiffe_id "key-rotation" db in
    let (none_left, _) = nothing-active_by_spiffe_id l.spiffe_id c.now db' revoked in
    let (none_later, no_leaf) =
      nothing-active_by_spiffe_id l.spiffe_id again.now db'
        (any-outstanding_later l.spiffe_id c.now again.now db'.issued_svids from revoked) in
    let still =
      get_ldi_by_spiffe_id-AuditOnly l.spiffe_id db db' l
        (revoke_active_priors-AuditOnly c.now l.spiffe_id "key-rotation" db) known in
    (db', ground arith, none_left, none_later, ground arith)
