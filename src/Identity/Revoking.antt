-- ===== src/Identity/Revoking.antt =====
-- revokeActivePriors of identity/service.go and the tables that it changes.
use specification_enhancemen.Prelude.{
  String, Bool, true, false, List, [], ◌∷◌, ◌≡◌, refl, arith, ok, any, All, any-append,
  any-All_none, All-modify_cases, All-map, modify-none, select-covers, any-order_by, str_eq_refl,
  Bool-cases, inl, inr,
}
use specification_enhancemen.Instant.{Instant}
use specification_enhancemen.Store.{Ldi, IssuedSvid, RevocationEntry, Db}
use specification_enhancemen.Store.Identities.{get_ldi_by_spiffe_id}
use specification_enhancemen.Store.IssuedSvids.{
  has_serial, is_outstanding, active_by_spiffe_id, mark_rows, mark_revoked,
}
use specification_enhancemen.Store.RevokedSvids.{lists_serial, revoke}
use specification_enhancemen.Identity.{revoke_each, revoke_active_priors}

-- Only the audit and the revocation list change.
pub record AuditOnly (db db' : Db) : Type 0 where
  pub ldis : db'.ldis ≡ db.ldis
  pub esi_bindings : db'.esi_bindings ≡ db.esi_bindings
  pub enrollment_tokens : db'.enrollment_tokens ≡ db.enrollment_tokens
  pub enrollment_token_outcomes : db'.enrollment_token_outcomes ≡ db.enrollment_token_outcomes
  pub jwt_replay : db'.jwt_replay ≡ db.jwt_replay
  pub replacement_tickets : db'.replacement_tickets ≡ db.replacement_tickets
  pub renewal_events : db'.renewal_events ≡ db.renewal_events
  pub issued_jwt_svids : db'.issued_jwt_svids ≡ db.issued_jwt_svids

pub AuditOnly-refl : (db : Db) → AuditOnly db db
AuditOnly-refl db = ground arith

pub AuditOnly-trans : (a b c : Db) → AuditOnly a b → AuditOnly b c → AuditOnly a c
AuditOnly-trans a b c h k = ground arith

pub get_ldi_by_spiffe_id-AuditOnly :
    (spiffe_id : String) (a b : Db) (l : Ldi)
    → AuditOnly a b
    → get_ldi_by_spiffe_id spiffe_id a ≡ ok l
    → get_ldi_by_spiffe_id spiffe_id b ≡ ok l
unfolding get_ldi_by_spiffe_id
get_ldi_by_spiffe_id-AuditOnly spiffe_id a b l h e = rw (h.ldis, get_ldi_by_spiffe_id) e

-- One round of the loop
revoke_one-AuditOnly :
    (p : IssuedSvid) (now : Instant) (reason : String) (db : Db)
    → AuditOnly db
        (mark_revoked p.serial_hex now
          (revoke p.serial_hex p.fingerprint_hex reason p.not_after now db).1).1
unfolding revoke mark_revoked
revoke_one-AuditOnly p now reason db = ground arith

pub revoke_each-AuditOnly :
    (now : Instant) (reason : String) (ps : List IssuedSvid) (db : Db)
    → AuditOnly db (revoke_each now reason ps db).1
unfolding revoke_each
revoke_each-AuditOnly now reason [] db = AuditOnly-refl db
revoke_each-AuditOnly now reason (p ∷ ps) db =
    AuditOnly-trans _ _ _ (revoke_one-AuditOnly p now reason db)
      (revoke_each-AuditOnly now reason ps _)

issued-mark_revoked :
    (serial : String) (now : Instant) (db : Db)
    → (mark_revoked serial now db).1.issued_svids ≡ mark_rows serial now db.issued_svids
unfolding mark_revoked
issued-mark_revoked serial now db = elim (Bool-cases (any (has_serial serial) db.issued_svids)) [
  | inl e ↦ rw e refl
  | inr e ↦ rw (e, modify-none _ _ _ e) refl
]

issued-revoke :
    (serial fingerprint reason : String) (not_after now : Instant) (db : Db)
    → (revoke serial fingerprint reason not_after now db).1.issued_svids ≡ db.issued_svids
unfolding revoke
issued-revoke serial fingerprint reason not_after now db = ground arith

-- Every outstanding row is among the priors.
abbrev pub IsCovered : String → Instant → List IssuedSvid → IssuedSvid → Type 0
IsCovered spiffe_id now ps r =
    is_outstanding spiffe_id now r ≡ true → any (λ p. has_serial p.serial_hex r) ps ≡ true

IsCovered-mark_rows :
    (spiffe_id : String) (now : Instant) (p : IssuedSvid) (ps rows : List IssuedSvid)
    → All (IsCovered spiffe_id now (p ∷ ps)) rows
    → All (IsCovered spiffe_id now ps) (mark_rows p.serial_hex now rows)
unfolding mark_rows is_outstanding
IsCovered-mark_rows spiffe_id now p ps rows =
    All-modify_cases (IsCovered spiffe_id now (p ∷ ps)) (IsCovered spiffe_id now ps)
      (has_serial p.serial_hex) _ (λ r hit h e. ground arith) (λ r miss h e. rw miss at (h e)) rows

-- A row that the loop still has to reach is covered by nothing when there are no priors left.
revoke_each-none_outstanding :
    (spiffe_id : String) (now : Instant) (reason : String) (ps : List IssuedSvid) (db : Db)
    → All (IsCovered spiffe_id now ps) db.issued_svids
    → any (is_outstanding spiffe_id now) (revoke_each now reason ps db).1.issued_svids ≡ false
unfolding revoke_each
revoke_each-none_outstanding spiffe_id now reason [] db h =
    any-All_none _ _ (All-map _ _ (λ r c. ground (arith)) db.issued_svids h)
revoke_each-none_outstanding spiffe_id now reason (p ∷ ps) db h =
    revoke_each-none_outstanding spiffe_id now reason ps _
      (rw (issued-mark_revoked, issued-revoke) (IsCovered-mark_rows spiffe_id now p ps _ h))

-- The priors that the query returns cover the table.
active_by_spiffe_id-covers :
    (spiffe_id : String) (now : Instant) (db : Db)
    → All (IsCovered spiffe_id now (active_by_spiffe_id spiffe_id now db)) db.issued_svids
unfolding active_by_spiffe_id
active_by_spiffe_id-covers spiffe_id now db =
    All-map _ _ (λ r h e. rw any-order_by (h e)) db.issued_svids
      (select-covers (is_outstanding spiffe_id now) (λ r p. has_serial p.serial_hex r)
        (λ r. str_eq_refl r.serial_hex) db.issued_svids)

-- After revokeActivePriors no SVID of the SPIFFE ID is outstanding.
pub revoke_active_priors-none_outstanding :
    (now : Instant) (spiffe_id reason : String) (db : Db)
    → any
        (is_outstanding spiffe_id now)
        (revoke_active_priors now spiffe_id reason db).1.issued_svids
      ≡ false
unfolding revoke_active_priors
revoke_active_priors-none_outstanding now spiffe_id reason db =
    revoke_each-none_outstanding spiffe_id now reason _ db
      (active_by_spiffe_id-covers spiffe_id now db)

pub revoke_active_priors-AuditOnly :
    (now : Instant) (spiffe_id reason : String) (db : Db)
    → AuditOnly db (revoke_active_priors now spiffe_id reason db).1
unfolding revoke_active_priors
revoke_active_priors-AuditOnly now spiffe_id reason db =
    revoke_each-AuditOnly now reason (active_by_spiffe_id spiffe_id now db) db

pub revoked-mark_revoked :
    (serial : String) (now : Instant) (db : Db)
    → (mark_revoked serial now db).1.revoked_svids ≡ db.revoked_svids
unfolding mark_revoked
revoked-mark_revoked serial now db = ground arith

-- A serial on the list stays there.
listed_after_revoke :
    (t : RevocationEntry → Bool) (p : IssuedSvid) (now : Instant) (reason : String) (db : Db)
    → any t db.revoked_svids ≡ true
    → any t (revoke p.serial_hex p.fingerprint_hex reason p.not_after now db).1.revoked_svids ≡ true
unfolding revoke
listed_after_revoke t p now reason db h =
    elim (Bool-cases (any (lists_serial p.serial_hex) db.revoked_svids)) [
      | inl e ↦ rw e h
      | inr e ↦ rw (e, any-append, h) refl
    ]

-- The serial of this round is on the list.
listed_by_revoke :
    (p : IssuedSvid) (now : Instant) (reason : String) (db : Db)
    → any
        (lists_serial p.serial_hex)
        (revoke p.serial_hex p.fingerprint_hex reason p.not_after now db).1.revoked_svids
      ≡ true
unfolding revoke
listed_by_revoke p now reason db =
    elim (Bool-cases (any (lists_serial p.serial_hex) db.revoked_svids)) [
      | inl e ↦ rw e e
      | inr e ↦ rw (e, any-append, e, str_eq_refl) refl
    ]

listed_after_each :
    (serial : String) (now : Instant) (reason : String) (ps : List IssuedSvid) (db : Db)
    → any (lists_serial serial) db.revoked_svids ≡ true
    → any (lists_serial serial) (revoke_each now reason ps db).1.revoked_svids ≡ true
unfolding revoke_each
listed_after_each serial now reason [] db h = h
listed_after_each serial now reason (p ∷ ps) db h =
    listed_after_each serial now reason ps _
      (rw revoked-mark_revoked (listed_after_revoke (lists_serial serial) p now reason db h))

-- Every prior is on the revocation list afterwards.
pub revoke_each-lists :
    (now : Instant) (reason : String) (ps : List IssuedSvid) (db : Db)
    → All
        (λ p. any (lists_serial p.serial_hex) (revoke_each now reason ps db).1.revoked_svids ≡ true)
        ps
unfolding revoke_each
revoke_each-lists now reason [] db = tt
revoke_each-lists now reason (p ∷ ps) db = (
  listed_after_each p.serial_hex now reason ps _
      (rw revoked-mark_revoked (listed_by_revoke p now reason db)),
  revoke_each-lists now reason ps _,
)
