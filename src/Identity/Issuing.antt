-- ===== src/Identity/Issuing.antt =====
-- The common end of the issuing methods of identity/service.go.
use specification_enhancemen.Prelude.{
  ℕ, String, Bool, true, false, some, List, [], ◌∷◌, ◌≡◌, refl, ap, arith, any, All, find, Result,
  ok, All-append, All-order_by, All-select, All-modify_cases, All-any_none, All-map, Bool-cases,
  Option-cases, inl, inr, modify, modify-none, any-append, ◌∙◌, str_eq_refl,
}
use mathlib.Core.Path.{subst}
use specification_enhancemen.Instant.{Instant, text_lt}
use specification_enhancemen.Errors.{Err}
use specification_enhancemen.Platform.{Platform, Csr}
use specification_enhancemen.Store.{Ldi, IssuedSvid, Db}
use specification_enhancemen.Store.IssuedSvids.{
  has_serial, is_outstanding, active_by_spiffe_id, upsert, record_svid,
}
use specification_enhancemen.Identity.{
  Service, Call, EnrollmentResult, issuance_row, record_issuance, issue_and_record,
}
use specification_enhancemen.Identity.Revoking.{AuditOnly, AuditOnly-refl}

-- The row is the SVID that the result hands out: its DER is the first of the chain.
abbrev pub IsLeafOf : EnrollmentResult → IssuedSvid → Type 0
IsLeafOf res r = find (λ _. true) res.cert_chain_der ≡ some r.leaf_der

-- Every outstanding SVID of the SPIFFE ID is the one that was handed out, and there is one exactly
-- where the expiry of the result has not passed in the order of the stored times.
abbrev pub IsSole : String → Instant → EnrollmentResult → Db → Type 0
IsSole spiffe_id now res db =
    All (IsLeafOf res) (active_by_spiffe_id spiffe_id now db)
    × (any (is_outstanding spiffe_id now) db.issued_svids ≡ text_lt now res.expires_at)

active-IsLeafOf :
    (spiffe_id : String) (now : Instant) (res : EnrollmentResult) (db : Db)
    → All (λ r. is_outstanding spiffe_id now r ≡ true → IsLeafOf res r) db.issued_svids
    → All (IsLeafOf res) (active_by_spiffe_id spiffe_id now db)
unfolding active_by_spiffe_id
active-IsLeafOf spiffe_id now res db h =
    All-order_by (IsLeafOf res) _ _
      (All-select (IsLeafOf res) (is_outstanding spiffe_id now) db.issued_svids h)

record_svid-AuditOnly : (rec : IssuedSvid) (db : Db) → AuditOnly db (record_svid rec db).1
unfolding record_svid
record_svid-AuditOnly rec db = ground arith

record_issuance-AuditOnly :
    (p : Platform) (now : Instant) (ldi : Ldi) (chain : List String) (method : String)
    (not_after : Instant) (db : Db)
    → AuditOnly db (record_issuance p now ldi chain method not_after db).1
unfolding record_issuance
record_issuance-AuditOnly p now ldi [] method not_after db = ground arith
record_issuance-AuditOnly p now ldi (der ∷ rest) method not_after db =
    elim (Option-cases (p.parse_certificate der)) [
      | inl e ↦ rw (e, record_issuance) (AuditOnly-refl db)
      | inr (leaf, e) ↦
          rw (e, record_issuance)
            (record_svid-AuditOnly (issuance_row p now ldi der leaf method not_after) db)
    ]

pub issue_and_record-AuditOnly :
    (s : Service) (c : Call) (ldi : Ldi) (csr : Csr) (method : String) (code : ℕ) (db : Db)
    → AuditOnly db (issue_and_record s c ldi csr method code db).1
unfolding issue_and_record
issue_and_record-AuditOnly s c ldi csr method code db =
    elim (Option-cases (c.issue ldi.spiffe_id csr.der s.svid_ttl)) [
      | inl e ↦ rw (e, issue_and_record) (AuditOnly-refl db)
      | inr ((chain, expires), e) ↦
          rw (e, issue_and_record)
            (record_issuance-AuditOnly s.platform c.now ldi chain method expires db)
    ]

-- The upserted row is the only one that can pass a test which no row passed.
upsert-sole :
    (q : IssuedSvid → Bool) (rec : IssuedSvid) (rows : List IssuedSvid)
    → any q rows ≡ false
    → All (λ r. q r ≡ true → r.leaf_der ≡ rec.leaf_der) (upsert rec rows)
unfolding upsert
upsert-sole q rec rows h = elim (Bool-cases (any (has_serial rec.serial_hex) rows)) [
  | inl e ↦ rw e (
      All-modify_cases (λ r. q r ≡ false) _ (has_serial rec.serial_hex) _ (λ r hit n y. refl)
        (λ r miss n y. cc) rows (All-any_none q rows h))
  | inr e ↦
      rw e (
        All-append _ rows _ (All-map _ _ (λ r n y. cc) rows (All-any_none q rows h))
          (λ y. refl, tt))
]

any-modify_to :
    (p q : IssuedSvid → Bool) (rec : IssuedSvid) (rows : List IssuedSvid)
    → any p rows ≡ true
    → any q rows ≡ false
    → any q (modify p (λ _. rec) rows) ≡ q rec
any-modify_to p q rec [] there none_q = absurd (ground arith)
any-modify_to p q rec (x ∷ xs) there none_q = elim (Bool-cases (any p xs)) [
  | inl e ↦ ground (arith, any-modify_to p q rec xs)
  | inr e ↦ ground (arith, modify-none p (λ _. rec) xs e)
]

-- Where no row passes the test, one does after the upsert exactly if the new row does.
any-upsert :
    (q : IssuedSvid → Bool) (rec : IssuedSvid) (rows : List IssuedSvid)
    → any q rows ≡ false
    → any q (upsert rec rows) ≡ q rec
unfolding upsert
any-upsert q rec rows none_q = elim (Bool-cases (any (has_serial rec.serial_hex) rows)) [
  | inl e ↦ rw e (any-modify_to (has_serial rec.serial_hex) q rec rows e none_q)
  | inr e ↦ rw e (any-append q rows (rec ∷ []) ∙ ground (arith, none_q))
]

issued-record_svid :
    (rec : IssuedSvid) (db : Db)
    → (record_svid rec db).0 ≡ ok tt
    → (record_svid rec db).1.issued_svids ≡ upsert rec db.issued_svids
unfolding record_svid
issued-record_svid rec db h = ground arith

-- A recorded issuance succeeds only for a chain with a leaf, and makes that leaf the sole
-- outstanding SVID where none was.
record_issuance-sole :
    (q : IssuedSvid → Bool) (p : Platform) (now : Instant) (ldi : Ldi) (chain : List String)
    (method : String) (not_after : Instant) (db : Db)
    → any q db.issued_svids ≡ false
    → (record_issuance p now ldi chain method not_after db).0 ≡ ok tt
    → All
        (λ r. q r ≡ true → find (λ _. true) chain ≡ some r.leaf_der)
        (record_issuance p now ldi chain method not_after db).1.issued_svids
unfolding record_issuance
record_issuance-sole q p now ldi [] method not_after db none_q fine = absurd (ground arith)
record_issuance-sole q p now ldi (der ∷ rest) method not_after db none_q fine =
    elim (Option-cases (p.parse_certificate der)) [
      | inl e ↦ absurd (ground arith)
      | inr (leaf, e) ↦
          let row = issuance_row p now ldi der leaf method not_after in
          let done : (record_svid row db).0 ≡ ok tt = rw (e, record_issuance) at fine in
          rw (e, record_issuance)
            (rw (issued-record_svid row db done) (
              All-map (λ r. q r ≡ true → r.leaf_der ≡ der) _ (λ r h y. cc (h y)) _
                (upsert-sole q row db.issued_svids none_q)))
    ]

-- Then there is an outstanding SVID exactly where that leaf has not expired.
record_issuance-lives :
    (p : Platform) (now : Instant) (ldi : Ldi) (chain : List String) (method : String)
    (not_after : Instant) (db : Db)
    → any (is_outstanding ldi.spiffe_id now) db.issued_svids ≡ false
    → (record_issuance p now ldi chain method not_after db).0 ≡ ok tt
    → any
        (is_outstanding ldi.spiffe_id now)
        (record_issuance p now ldi chain method not_after db).1.issued_svids
      ≡ text_lt now not_after
unfolding record_issuance is_outstanding
record_issuance-lives p now ldi [] method not_after db none_q fine = absurd (ground arith)
record_issuance-lives p now ldi (der ∷ rest) method not_after db none_q fine =
    elim (Option-cases (p.parse_certificate der)) [
      | inl e ↦ absurd (ground arith)
      | inr (leaf, e) ↦
          let row = issuance_row p now ldi der leaf method not_after in
          let done : (record_svid row db).0 ≡ ok tt = rw (e, record_issuance) at fine in
          rw (e, record_issuance)
            (rw (issued-record_svid row db done) (
              any-upsert (is_outstanding ldi.spiffe_id now) row db.issued_svids none_q
              ∙ rw (str_eq_refl ldi.spiffe_id, is_outstanding) refl))
    ]

-- A success at the end comes from an issued chain that has been recorded.
pub issue_and_record-ok :
    (s : Service) (c : Call) (ldi : Ldi) (csr : Csr) (method : String) (code : ℕ) (db : Db)
    (res : EnrollmentResult) (db' : Db)
    → issue_and_record s c ldi csr method code db ≡ (ok res, db')
    → (record_issuance s.platform c.now ldi res.cert_chain_der method res.expires_at db
        ≡ (ok tt, db'))
      × (res.ldi ≡ ldi)
      × (res.status_code ≡ code)
unfolding issue_and_record
issue_and_record-ok s c ldi csr method code db res db' done =
    (ground arith, ground arith, ground arith)

-- Where no SVID was outstanding, a successful end leaves the one that it hands out.
pub issue_and_record-IsSole :
    (s : Service) (c : Call) (ldi : Ldi) (csr : Csr) (method : String) (code : ℕ) (db : Db)
    (res : EnrollmentResult) (db' : Db)
    → any (is_outstanding ldi.spiffe_id c.now) db.issued_svids ≡ false
    → issue_and_record s c ldi csr method code db ≡ (ok res, db')
    → IsSole ldi.spiffe_id c.now res db'
issue_and_record-IsSole s c ldi csr method code db res db' none_q done =
    let made = (issue_and_record-ok s c ldi csr method code db res db' done).0 in
    let fine = ap (λ (m : Result Err (Unit {0}) × Db). m.0) made in
    let q = is_outstanding ldi.spiffe_id c.now in
    (
      active-IsLeafOf ldi.spiffe_id c.now res db' (
          subst
            (λ (m : Result Err (Unit {0}) × Db).
              All (λ r. q r ≡ true → IsLeafOf res r) m.1.issued_svids)
            made
            (record_issuance-sole q s.platform c.now ldi res.cert_chain_der method res.expires_at db
              none_q fine)),
      subst
          (λ (m : Result Err (Unit {0}) × Db).
            any q m.1.issued_svids ≡ text_lt c.now res.expires_at)
          made
          (record_issuance-lives s.platform c.now ldi res.cert_chain_der method res.expires_at db
            none_q fine),
    )
