-- ===== src/Identity.antt =====
-- completed/miaf-poc/pkg/mis/identity: service.go, policy.go and replacement.go: the state and the
-- steps that the operations share. Each operation is a child module. A method of *Service takes the
-- tables before the call and returns its result with the tables after it, on an error too: what was
-- written before the error stays. One call reads one instant from the clock.
pub mod Revoking
pub mod Issuing
pub mod Refusals
pub mod Enrollment
pub mod Renewal
pub mod Revocation
pub mod JwtSvid
use specification_enhancemen.Prelude.{
  ℕ, ◌+◌, String, ◌==◌, Bool, true, false, ◌&&◌, not, Option, none, some, List, [], ◌∷◌, Result, ok,
  err, if◌then◌else◌, eqb, ltb,
}
use specification_enhancemen.Instant.{Instant}
use specification_enhancemen.Errors.{Err}
use specification_enhancemen.Platform.{Platform, Certificate, Csr}
use specification_enhancemen.Store.{
  Ldi, LdiStatus, EsiBinding, BindingStatus, bound, IssuedSvid, IssuedJwtSvid, RevocationEntry, Db,
}
use specification_enhancemen.Store.Identities.{
  lookup_by_esi, create_ldi_and_bind, rebind, get_ldi, get_ldi_by_spiffe_id, set_ldi_status,
}
use specification_enhancemen.Store.IssuedSvids.{
  record_svid, active_by_spiffe_id, mark_revoked, leaf_by_active_spiffe_id,
}
use specification_enhancemen.Store.RevokedSvids.{revoke}
use specification_enhancemen.Store.ReplacementTickets.{validate_ticket}
use specification_enhancemen.Store.JwtReplay.{record_jwt_svid}

-- StaticPolicy
pub record StaticPolicy : Type 0 where
  pub new_ldi : Bool
  pub key_rotation : Bool

-- The two implementations of ReplacementValidator: NoReplacements and the ticket store
pub data Replacements : Type 0 where
  no_replacements operator_tickets : Replacements

unfoldable pub validate_replacement :
    Replacements → (String → String) → String → Instant → Db → Result Err String × Db
validate_replacement no_replacements sha256 ticket now db = (err Err.replacement_not_authorized, db)
validate_replacement operator_tickets sha256 ticket now db = validate_ticket sha256 ticket now db

-- The fields of Service
pub record Service : Type 0 where
  pub platform : Platform
  pub policy : StaticPolicy
  pub replacement : Replacements
  pub trust_domain : String
  pub svid_ttl : ℕ

-- What one call draws from outside: the clock, uuid.New, and the answer of the Issuer to the
-- SPIFFE ID, the CSR's DER and the TTL (the chain, leaf first, and the leaf's NotAfter).
pub record Call : Type 0 where
  pub now : Instant
  pub fresh_uuid : String
  pub issue : String → String → ℕ → Option (List String × Instant)

-- bootstrap.VerifiedBootstrap, without the evidence
pub record VerifiedBootstrap : Type 0 where
  pub method : String
  pub esi : String

-- common.ReplacementAuthorizationDTO
pub record ReplacementAuthorization : Type 0 where
  pub method : String
  pub ticket : String

abbrev pub operator_ticket_method : String
operator_ticket_method = "urn:margo:replacement-auth:operator-ticket:v1"

pub record EnrollmentResult : Type 0 where
  pub status_code : ℕ
  pub ldi : Ldi
  pub cert_chain_der : List String
  pub expires_at : Instant

abbrev pub is_active : LdiStatus → Bool
is_active LdiStatus.active = true
is_active LdiStatus.revoked = false
is_active LdiStatus.retired = false

-- The row that recordIssuance writes for a parsed leaf
unfoldable pub issuance_row :
    Platform → Instant → Ldi → String → Certificate → String → Instant → IssuedSvid
issuance_row p now ldi der leaf method not_after = record {
  serial_hex = leaf.serial_upper_hex;
  fingerprint_hex = p.hex (p.sha256 der);
  spiffe_id = ldi.spiffe_id;
  ldi_uuid = ldi.uuid;
  method = method;
  issued_at = now;
  not_before = leaf.not_before;
  not_after = not_after;
  revoked = false;
  revoked_at = none;
  leaf_der = der;
}

-- recordIssuance
unfoldable pub record_issuance :
    Platform → Instant → Ldi → List String → String → Instant → Db → Result Err (Unit {0}) × Db
unfolding issuance_row
record_issuance p now ldi [] method not_after db = (err Err.empty_chain, db)
record_issuance p now ldi (der ∷ rest) method not_after db = elim (p.parse_certificate der) [
  | none ↦ (err Err.malformed_leaf, db)
  | some leaf ↦ record_svid (issuance_row p now ldi der leaf method not_after) db
]

-- The loop of revokeActivePriors; neither statement can meet a constraint.
unfoldable pub revoke_each : Instant → String → List IssuedSvid → Db → List RevocationEntry × Db
revoke_each now reason [] db = ([], db)
revoke_each now reason (p ∷ ps) db =
    let (newly, db₁) = revoke p.serial_hex p.fingerprint_hex reason p.not_after now db in
    let db₂ = (mark_revoked p.serial_hex now db₁).1 in
    let (out, db₃) = revoke_each now reason ps db₂ in
    let entry : RevocationEntry = record {
      serial_hex = p.serial_hex;
      fingerprint_hex = p.fingerprint_hex;
      revoked_at = now;
      reason = reason;
      not_after = p.not_after;
    } in
    (if newly then entry ∷ out else out, db₃)

-- revokeActivePriors
unfoldable pub revoke_active_priors : Instant → String → String → Db → List RevocationEntry × Db
unfolding revoke_each
revoke_active_priors now spiffe_id reason db =
    revoke_each now reason (active_by_spiffe_id spiffe_id now db) db

-- The end of every issuing method: IssueX509SVID, recordIssuance, the result
unfoldable pub issue_and_record :
    Service → Call → Ldi → Csr → String → ℕ → Db → Result Err EnrollmentResult × Db
issue_and_record s c ldi csr method code db = elim (c.issue ldi.spiffe_id csr.der s.svid_ttl) [
  | none ↦ (err Err.issuer_failed, db)
  | some (chain, expires) ↦
      let (recorded, db₁) = record_issuance s.platform c.now ldi chain method expires db in
      (
        elim recorded [
          | err e ↦ err e
          | ok _ ↦ ok (record {
            status_code = code;
            ldi = ldi;
            cert_chain_der = chain;
            expires_at = expires;
          })
        ],
        db₁,
      )
]

-- renewalKeyChanged
unfoldable pub renewal_key_changed : Platform → String → Csr → Result Err Bool
renewal_key_changed p active_leaf_der csr = elim (p.parse_certificate active_leaf_der) [
  | none ↦ err Err.malformed_leaf
  | some leaf ↦ elim (p.marshal_public_key leaf.public_key) [
    | none ↦ err Err.malformed_key
    | some leaf_key ↦ elim (p.marshal_public_key csr.public_key) [
      | none ↦ err Err.malformed_key
      | some csr_key ↦ ok (not (p.sha256 leaf_key == p.sha256 csr_key))
    ]
  ]
]

-- The checks of a key that follow a leaf found: `ok` says whether the key changed
unfoldable pub check_rotation : Service → IssuedSvid → Csr → Result Err Bool
check_rotation s current csr = elim (renewal_key_changed s.platform current.leaf_der csr) [
  | err e ↦ err e
  | ok changed ↦
      if changed && not s.policy.key_rotation
      then err Err.key_rotation_not_permitted
      else ok changed
]
