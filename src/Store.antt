-- ===== src/Store.antt =====
-- completed/miaf-poc/pkg/mis/store/schema.sql and pkg/mis/identity/model.go: the rows of the
-- unified store and the state that holds its tables. A column that may be NULL, or a time.Time
-- that may be zero, is an `Option`; a BLOB is the `String` of the same bytes, which the program
-- only compares.
pub mod Identities
pub mod IssuedSvids
pub mod RevokedSvids
pub mod EnrollmentTokens
pub mod ReplacementTickets
pub mod RenewalEvents
pub mod JwtReplay
use specification_enhancemen.Prelude.{ℕ, String, Bool, Option, List}
use specification_enhancemen.Instant.{Instant}

-- LDIStatus
pub data LdiStatus : Type 0 where
  active revoked retired : LdiStatus

-- LDI, a row of `ldis`
pub record Ldi : Type 0 where
  pub uuid : String
  pub spiffe_id : String
  pub status : LdiStatus
  pub created_at : Instant
  pub updated_at : Instant

-- ESIBindingStatus
pub data BindingStatus : Type 0 where
  bound retired : BindingStatus

-- ESIBinding, a row of `esi_bindings`
pub record EsiBinding : Type 0 where
  pub esi : String
  pub ldi_uuid : String
  pub method : String
  pub status : BindingStatus
  pub bound_at : Instant
  pub retired_at : Option Instant

-- IssuedSVIDRecord, a row of `issued_svids`
pub record IssuedSvid : Type 0 where
  pub serial_hex : String
  pub fingerprint_hex : String
  pub spiffe_id : String
  pub ldi_uuid : String
  pub method : String
  pub issued_at : Instant
  pub not_before : Instant
  pub not_after : Instant
  pub revoked : Bool
  pub revoked_at : Option Instant
  pub leaf_der : String

-- RevocationEntry, a row of `revoked_svids`
pub record RevocationEntry : Type 0 where
  pub serial_hex : String
  pub fingerprint_hex : String
  pub revoked_at : Instant
  pub reason : String
  pub not_after : Instant

-- a row of `renewal_events`
pub record RenewalEvent : Type 0 where
  pub spiffe_id : String
  pub recorded_at : Instant

-- The status column of tokens and tickets
pub data TokenStatus : Type 0 where
  active consumed : TokenStatus

-- a row of `replacement_tickets`
pub record ReplacementTicket : Type 0 where
  pub ticket_hash : String
  pub ldi_uuid : String
  pub status : TokenStatus
  pub expires_at : Instant
  pub created_at : Instant
  pub consumed_at : Option Instant

-- a row of `enrollment_tokens`
pub record EnrollmentToken : Type 0 where
  pub token_id : String
  pub secret_hash : String
  pub status : TokenStatus
  pub expires_at : Instant
  pub created_at : Instant
  pub consumed_at : Option Instant

-- tokens.Outcome, a row of `enrollment_token_outcomes`
pub record Outcome : Type 0 where
  pub token_id : String
  pub status_code : ℕ
  pub certificate_chain_pem : List String
  pub svid_profile_uri : String
  pub csr_pub_key_sha256 : String
  pub ldi_uuid : String
  pub completed_at : Instant
  pub retry_window_ends : Instant

-- a row of `jwt_replay`
pub record JwtReplayRow : Type 0 where
  pub jti : String
  pub expires_at : Instant

-- IssuedJWTSVIDRecord, a row of `issued_jwt_svids`
pub record IssuedJwtSvid : Type 0 where
  pub jti : String
  pub spiffe_id : String
  pub audiences : List String
  pub issued_at : Instant
  pub expires_at : Instant

-- The tables of the store
pub record Db : Type 0 where
  pub ldis : List Ldi
  pub esi_bindings : List EsiBinding
  pub enrollment_tokens : List EnrollmentToken
  pub enrollment_token_outcomes : List Outcome
  pub jwt_replay : List JwtReplayRow
  pub replacement_tickets : List ReplacementTicket
  pub renewal_events : List RenewalEvent
  pub issued_svids : List IssuedSvid
  pub revoked_svids : List RevocationEntry
  pub issued_jwt_svids : List IssuedJwtSvid
