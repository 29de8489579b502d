-- ===== src/Identity/Revocation/Effective.antt =====
-- RevokeSPIFFEID of identity/service.go: its result and the tables after it.
use specification_enhancemen.Prelude.{
  String, true, false, some, List, [], ◌∷◌, ◌≡◌, refl, arith, ok, inl, inr, any, find, All, length,
  ◌+◌, modify, ◌==◌, Bool-cases, str_eq_refl, any-found,
}
use specification_enhancemen.Instant.{Instant}
use specification_enhancemen.Store.{Ldi, LdiStatus, IssuedSvid, Db}
use specification_enhancemen.Store.Identities.{
  has_uuid, has_spiffe_id, get_ldi_by_spiffe_id, set_ldi_status,
}
use specification_enhancemen.Store.IssuedSvids.{is_outstanding, active_by_spiffe_id, mark_revoked}
use specification_enhancemen.Store.RevokedSvids.{lists_serial, revoke}
use specification_enhancemen.Identity.{revoke_each, revoke_active_priors}
use specification_enhancemen.Identity.Revoking.{
  get_ldi_by_spiffe_id-AuditOnly, AuditOnly, revoke_each-lists, revoke_each-AuditOnly,
  revoke_active_priors-none_outstanding,
}
use specification_enhancemen.Identity.Revocation.{Revoked, revoke_all, revoke_spiffe_id}

-- The loop of RevokeSPIFFEID does to the tables what that of revokeActivePriors does.
pub revoke_all-eq-revoke_each :
    (now : Instant) (reason : String) (ps : List IssuedSvid) (db : Db)
    → (revoke_all now reason ps db).1 ≡ (revoke_each now reason ps db).1
unfolding revoke_all revoke_each
revoke_all-eq-revoke_each now reason [] db = refl
revoke_all-eq-revoke_each now reason (p ∷ ps) db = revoke_all-eq-revoke_each now reason ps _

-- Each outstanding SVID is reported, as newly revoked or as revoked before.
pub revoke_all-reports :
    (now : Instant) (reason : String) (ps : List IssuedSvid) (db : Db)
    → length (revoke_all now reason ps db).0.newly_revoked
        + length (revoke_all now reason ps db).0.already_revoked
      ≡ length ps
unfolding revoke_all
revoke_all-reports now reason [] db = refl
revoke_all-reports now reason (p ∷ ps) db =
    let one = revoke p.serial_hex p.fingerprint_hex reason p.not_after now db in
    let ih = revoke_all-reports now reason ps (mark_revoked p.serial_hex now one.1).1 in
    elim (Bool-cases one.0) [ inl e ↦ rw e (omega (arith, ih)) | inr e ↦ rw e (omega (arith, ih)) ]

-- The first LDI with the SPIFFE ID is the first one after an update by UUID, with a status of its
-- own if the update was of its UUID.
find-set_status :
    (spiffe_id : String) (now : Instant) (status : LdiStatus) (l : Ldi) (ls : List Ldi)
    → find (has_spiffe_id spiffe_id) ls ≡ some l
    → find
        (has_spiffe_id spiffe_id)
        (modify (has_uuid l.uuid) (λ r. record r { status = status; updated_at = now }) ls)
      ≡ some (record l { status = status; updated_at = now })
find-set_status spiffe_id now status l [] h = absurd (ground arith)
find-set_status spiffe_id now status l (x ∷ xs) h = elim (Bool-cases (has_spiffe_id spiffe_id x)) [
  | inl e ↦
      let same : x ≡ l = ground arith in
      let named : (x.uuid == l.uuid) ≡ true = rw same (str_eq_refl l.uuid) in ground arith
  | inr e ↦ ground (arith, find-set_status spiffe_id now status l xs)
]

-- The LDI of a SPIFFE ID after SetLDIStatus on its UUID
get_ldi-set_ldi_status :
    (spiffe_id : String) (now : Instant) (l : Ldi) (db : Db)
    → get_ldi_by_spiffe_id spiffe_id db ≡ ok l
    → ((set_ldi_status now l.uuid LdiStatus.revoked db).0 ≡ ok tt)
      × (get_ldi_by_spiffe_id spiffe_id (set_ldi_status now l.uuid LdiStatus.revoked db).1
          ≡ ok (record l { status = LdiStatus.revoked; updated_at = now }))
unfolding get_ldi_by_spiffe_id set_ldi_status
get_ldi-set_ldi_status spiffe_id now l db h =
    let found : find (has_spiffe_id spiffe_id) db.ldis ≡ some l = ground arith in
    let there =
      any-found (has_spiffe_id spiffe_id) (has_uuid l.uuid) db.ldis l found (str_eq_refl l.uuid) in
    let after = find-set_status spiffe_id now LdiStatus.revoked l db.ldis found in
    (rw there refl, rw there (rw (after, get_ldi_by_spiffe_id) refl))

pub set_ldi_status-AuditTables :
    (now : Instant) (id : String) (status : LdiStatus) (db : Db)
    → ((set_ldi_status now id status db).1.issued_svids ≡ db.issued_svids)
      × ((set_ldi_status now id status db).1.revoked_svids ≡ db.revoked_svids)
unfolding set_ldi_status
set_ldi_status-AuditTables now id status db = ground arith

-- What RevokeSPIFFEID promises of its result and of the tables that it leaves
abbrev pub IsRevoked : Instant → String → Ldi → Db → Revoked → Db → Type 0
IsRevoked now spiffe_id l db rev db' =
    (any (is_outstanding spiffe_id now) db'.issued_svids ≡ false)
    × All (λ p. any (lists_serial p.serial_hex) db'.revoked_svids ≡ true)
        (active_by_spiffe_id spiffe_id now db)
    × (length rev.newly_revoked + length rev.already_revoked
        ≡ length (active_by_spiffe_id spiffe_id now db))
    × (get_ldi_by_spiffe_id spiffe_id db'
        ≡ ok (record l { status = LdiStatus.revoked; updated_at = now }))

-- RevokeSPIFFEID of a known SPIFFE ID always succeeds. Afterwards no SVID of it is outstanding, each
-- one that was stands on the revocation list, as many are reported as there were, as newly revoked
-- or as revoked before, and the LDI has the status revoked and is otherwise the same but for its
-- time of update.
pub revoke_spiffe_id-effective :
    (now : Instant) (spiffe_id reason : String) (l : Ldi) (db : Db)
    → get_ldi_by_spiffe_id spiffe_id db ≡ ok l
    → (rev : Revoked) × (db' : Db) × (revoke_spiffe_id now spiffe_id reason db ≡ (ok rev, db'))
      × IsRevoked now spiffe_id l db rev db'
unfolding revoke_spiffe_id revoke_active_priors
revoke_spiffe_id-effective now spiffe_id reason l db h =
    let ps = active_by_spiffe_id spiffe_id now db in
    let db₁ = (revoke_all now reason ps db).1 in
    let same : db₁ ≡ (revoke_each now reason ps db).1 =
      revoke_all-eq-revoke_each now reason ps db in
    let kept : AuditOnly db db₁ = rw same (revoke_each-AuditOnly now reason ps db) in
    let updated =
      get_ldi-set_ldi_status spiffe_id now l db₁
        (get_ldi_by_spiffe_id-AuditOnly spiffe_id db db₁ l kept h) in
    let tables = set_ldi_status-AuditTables now l.uuid LdiStatus.revoked db₁ in
    (
      (revoke_all now reason ps db).0,
      (set_ldi_status now l.uuid LdiStatus.revoked db₁).1,
      rw (h, revoke_spiffe_id) (rw (updated.0) refl),
      (
        rw (tables.0) (rw same (revoke_active_priors-none_outstanding now spiffe_id reason db)),
        rw (tables.1) (rw same (revoke_each-lists now reason ps db)),
        revoke_all-reports now reason ps db,
        updated.1,
      ),
    )
