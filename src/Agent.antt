-- ===== src/Agent.antt =====
-- completed/miaf-poc/pkg/device-agent: what the identity manager (identitymanager/manager.go) keeps in
-- memory and on disk, agentstate/state.go and pkg/device-agent/jwtsvid/cache/cache.go's entries. The
-- manager's goroutine takes one command after another; what the network, the disk and the keys answer
-- are arguments of a command.
use specification_enhancemen.Prelude.{
  ℕ, ◌+◌, String, ◌<>◌, ◌==◌, Bool, true, false, ◌&&◌, ◌||◌, not, Option, none, some, List, [], ◌∷◌,
  ◌++◌, if◌then◌else◌, eqb, ltb, leb, any, find, modify, select, order_by, length,
}
use specification_enhancemen.Instant.{Instant}
pub mod Renewing
pub mod JwtCaching
pub mod Revocations
pub mod Commands
pub mod Halted
pub mod Detection
pub mod Missed
pub mod Reuse
pub mod Propagation
pub mod Revoked

-- agentstate.State; an instant is 0 for the zero of time.Time.
pub record AgentState : Type 0 where
  pub spiffe_id : String
  pub serial : String
  pub expires_at : Instant
  pub last_enrolled : Instant
  pub bundle_last_modified : String
  pub revocations_etag : String
  pub revocations_last_modified : String
  pub last_bundle_refresh_at : Instant
  pub last_revocations_check_at : Instant
  pub last_renewal_at : Instant
  pub revoked_at : Instant

-- cache.Entry, under its key
pub record JwtEntry : Type 0 where
  pub key : String
  pub token : String
  pub expires_at : Instant

-- cache.Cache
pub record JwtCache : Type 0 where
  pub threshold : ℕ
  pub entries : List JwtEntry

-- Manager with its files: the state, the certificate chain and the key of the SVID. The cache is none
-- where there is no JWTCache.
pub record Device : Type 0 where
  pub state : AgentState
  pub revoked : Bool
  pub state_file : AgentState
  pub cert_file : String
  pub key_file : String
  pub cache : Option JwtCache

-- What pem.Decode and x509.ParseCertificate make of the first block of a chain
pub record Leaf : Type 0 where
  pub serial_decimal : String
  pub not_after : Instant
  pub fingerprint_hex : String

-- persist: `saves` says whether agentstate.Save succeeds; it replaces the file as a whole.
unfoldable pub persist : Bool → Device → Device
persist saves d = if saves then record d { state_file = d.state } else d

-- A status from 200 to 299
abbrev pub is_success : ℕ → Bool
is_success status = leb 200 status && ltb status 300
