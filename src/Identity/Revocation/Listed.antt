-- ===== src/Identity/Revocation/Listed.antt =====
-- RevokeSPIFFEID of identity/service.go: the fingerprints on the revocation list after it
use specification_enhancemen.Prelude.{
  String, true, ◌==◌, ◌&&◌, List, [], ◌∷◌, ◌++◌, ◌≡◌, refl, arith, ◌∙◌, ap, ok, inl, inr, any, All,
  Bool-cases, All-append, str_eq_refl,
}
use specification_enhancemen.Instant.{Instant, text_lt}
use specification_enhancemen.Store.{Ldi, LdiStatus, IssuedSvid, RevocationEntry, Db}
use specification_enhancemen.Store.Identities.{get_ldi_by_spiffe_id}
use specification_enhancemen.Store.IssuedSvids.{active_by_spiffe_id}
use specification_enhancemen.Store.RevokedSvids.{lists_serial, revoke}
use specification_enhancemen.Identity.{revoke_each}
use specification_enhancemen.Identity.Revoking.{revoke_each-lists, revoked-mark_revoked}
use specification_enhancemen.Identity.Revocation.{revoke_all, revoke_spiffe_id}
use specification_enhancemen.Identity.Revocation.Effective.{
  revoke_all-eq-revoke_each, set_ldi_status-AuditTables,
}

-- A row of the revocation list with the serial of this SVID is one of this SVID.
abbrev pub IsOf : IssuedSvid → RevocationEntry → Type 0
IsOf p e =
    lists_serial p.serial_hex e ≡ true
    → (e.fingerprint_hex ≡ p.fingerprint_hex) × (e.not_after ≡ p.not_after)

-- An SVID with the serial of this one is this one.
abbrev pub IsSame : IssuedSvid → IssuedSvid → Type 0
IsSame p q =
    (q.serial_hex == p.serial_hex) ≡ true
    → (q.fingerprint_hex ≡ p.fingerprint_hex) × (q.not_after ≡ p.not_after)

revoke-IsOf :
    (p q : IssuedSvid) (now : Instant) (reason : String) (db : Db)
    → IsSame p q
    → All (IsOf p) db.revoked_svids
    → All (IsOf p) (revoke q.serial_hex q.fingerprint_hex reason q.not_after now db).1.revoked_svids
unfolding revoke
revoke-IsOf p q now reason db same h =
    elim (Bool-cases (any (lists_serial q.serial_hex) db.revoked_svids)) [
      | inl e ↦ rw e h
      | inr e ↦ rw e (All-append _ _ _ h ((λ own. same own), tt))
    ]

revoke_each-IsOf :
    (p : IssuedSvid) (now : Instant) (reason : String) (ps : List IssuedSvid) (db : Db)
    → All (IsSame p) ps
    → All (IsOf p) db.revoked_svids
    → All (IsOf p) (revoke_each now reason ps db).1.revoked_svids
unfolding revoke_each
revoke_each-IsOf p now reason [] db same h = h
revoke_each-IsOf p now reason (q ∷ ps) db same h =
    revoke_each-IsOf p now reason ps _ same.1
      (rw revoked-mark_revoked (revoke-IsOf p q now reason db same.0 h))

-- A row with the serial then has the fingerprint and is on the list as long as the SVID lives.
any-IsOf :
    (p : IssuedSvid) (later : Instant) (es : List RevocationEntry)
    → text_lt later p.not_after ≡ true
    → All (IsOf p) es
    → any (lists_serial p.serial_hex) es ≡ true
    → any (λ e. (e.fingerprint_hex == p.fingerprint_hex) && text_lt later e.not_after) es ≡ true
any-IsOf p later [] live h listed = absurd (ground arith)
any-IsOf p later (e ∷ es) live h listed = elim (Bool-cases (lists_serial p.serial_hex e)) [
  | inl own ↦
      let one = h.0 own in
      rw (one.0) (rw (one.1) (rw live (rw (str_eq_refl p.fingerprint_hex) refl)))
  | inr other ↦ ground (arith, any-IsOf p later es live h.1)
]

All-at :
    {A : Type 0} (P : A → Type 0) (before after : List A) (a : A)
    → All P (before ++ a ∷ after)
    → P a
All-at P [] after a h = h.0
All-at P (x ∷ before) after a h = All-at P before after a h.1

All-in :
    {A : Type 0} (P : A → Type 0) (xs before after : List A) (a : A)
    → xs ≡ before ++ a ∷ after
    → All P xs
    → P a
All-in P xs before after a split h = All-at P before after a (rw split at h)

revoked-revoke_spiffe_id :
    (now : Instant) (spiffe_id reason : String) (l : Ldi) (db : Db)
    → get_ldi_by_spiffe_id spiffe_id db ≡ ok l
    → (revoke_spiffe_id now spiffe_id reason db).1.revoked_svids
      ≡ (revoke_each now reason (active_by_spiffe_id spiffe_id now db) db).1.revoked_svids
unfolding revoke_spiffe_id
revoked-revoke_spiffe_id now spiffe_id reason l db known =
    let ps = active_by_spiffe_id spiffe_id now db in
    let db₁ = (revoke_all now reason ps db).1 in
    rw (known, revoke_spiffe_id)
      ((set_ldi_status-AuditTables now l.uuid LdiStatus.revoked db₁).1
        ∙ ap (λ d. d.revoked_svids) (revoke_all-eq-revoke_each now reason ps db))

-- An SVID that was outstanding stands on the list with its fingerprint until it expires, if a serial
-- is that of one certificate.
pub revoke_spiffe_id-fingerprint :
    (now later : Instant) (spiffe_id reason : String) (l : Ldi) (db : Db) (p : IssuedSvid)
    (before after : List IssuedSvid)
    → get_ldi_by_spiffe_id spiffe_id db ≡ ok l
    → active_by_spiffe_id spiffe_id now db ≡ before ++ p ∷ after
    → All (IsSame p) (active_by_spiffe_id spiffe_id now db)
    → All (IsOf p) db.revoked_svids
    → text_lt later p.not_after ≡ true
    → any
        (λ e. (e.fingerprint_hex == p.fingerprint_hex) && text_lt later e.not_after)
        (revoke_spiffe_id now spiffe_id reason db).1.revoked_svids
      ≡ true
revoke_spiffe_id-fingerprint now later spiffe_id reason l db p before after known split same rows
      live =
    let ps = active_by_spiffe_id spiffe_id now db in
    let listed = All-in _ ps before after p split (revoke_each-lists now reason ps db) in
    rw (revoked-revoke_spiffe_id now spiffe_id reason l db known)
      (any-IsOf p later _ live (revoke_each-IsOf p now reason ps db same rows) listed)
