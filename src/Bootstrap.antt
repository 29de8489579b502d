-- ===== src/Bootstrap.antt =====
-- completed/miaf-poc/pkg/mis/bootstrap/validator.go: what a bootstrap validator answers. Each
-- method is a child module, and Secrets is the wire form of an enrollment token.
pub mod Secrets
pub mod EnrollmentToken
pub mod FactoryJwt
pub mod FactoryMtls
pub mod Registered
pub mod ReplayMemory
use specification_enhancemen.Prelude.{
  ℕ, String, ◌==◌, Option, none, some, List, [], ◌∷◌, if◌then◌else◌, Result, map, order_by, not,
}
use Prim.Native.String.{compare}
use text.Mathlib.Text.{is_lt}
use specification_enhancemen.Instant.{Instant}
use specification_enhancemen.Errors.{BootstrapErr}
use specification_enhancemen.Store.{Db}
use specification_enhancemen.Identity.{VerifiedBootstrap}

-- common.BootstrapProof; a field that is left out is the empty text.
pub record Proof : Type 0 where
  pub assertion : String
  pub token : String

-- common.BootstrapCredentialDTO
pub record Credential : Type 0 where
  pub method : String
  pub proof : Option Proof

-- common.EnrollmentResponseDTO
pub record EnrollmentResponse : Type 0 where
  pub svid_profile_uri : String
  pub certificate_chain_pem : List String

-- CachedResponse
pub record CachedResponse : Type 0 where
  pub response : EnrollmentResponse
  pub status_code : ℕ

-- ValidationOutcome: Replay or Pending, with the evidence that Commit uses
pub data ValidationOutcome {ℓ} (Evidence : Type ℓ) : Type ℓ where
  replay : CachedResponse → ValidationOutcome Evidence
  pending : VerifiedBootstrap → Evidence → ValidationOutcome Evidence

-- A Validator with the Commit hook of its pending enrollments. The handler only logs an error of
-- Commit, so the hook is what it does to the tables: nothing, for a method without one.
pub record Validator : Type 1 where
  pub Evidence : Type 0
  pub validate :
      Instant
      → Credential
      → String
      → String
      → Db
      → Result BootstrapErr (ValidationOutcome Evidence) × Db
  pub commit : Instant → Evidence → String → EnrollmentResponse → ℕ → String → Db → Db

-- Registry: the validators under their method URNs
abbrev pub Registry : Type 1
Registry = List (String × Validator)

-- Register
unfoldable pub register : String → Validator → Registry → Registry
register method v [] = (method, v) ∷ []
register method v ((m, w) ∷ r) =
    let rest = register method v r in if m == method then (method, v) ∷ r else (m, w) ∷ rest

-- Lookup; `none` is ErrUnsupportedMethod.
unfoldable pub lookup_validator : String → Registry → Option Validator
lookup_validator method [] = none
lookup_validator method ((m, w) ∷ r) =
    let rest = lookup_validator method r in if m == method then some w else rest

-- Methods: sort.Strings of the URNs
unfoldable pub methods : Registry → List String
methods r = order_by (λ a b. not (is_lt (compare b a))) (map (λ (e : String × Validator). e.0) r)
