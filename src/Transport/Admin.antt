-- ===== src/Transport/Admin.antt =====
-- completed/miaf-poc/pkg/mis/transport/admin: enrollment_tokens.go, replacement_tickets.go and
-- revocations.go, with completed/miaf-poc/pkg/common/admin_dto.go
use Prim.Native.Char.{code}
use specification_enhancemen.Prelude.{
  ℕ, String, ◌==◌, Bool, false, ◌||◌, Option, none, some, List, map, ok, err, if◌then◌else◌, eqb,
}
use specification_enhancemen.Instant.{Instant}
use specification_enhancemen.Errors.{Err}
use specification_enhancemen.Platform.{Platform}
use specification_enhancemen.Store.{Db}
use specification_enhancemen.Store.EnrollmentTokens.{create_token}
use specification_enhancemen.Store.ReplacementTickets.{create_ticket}
use specification_enhancemen.Bootstrap.Secrets.{wire}
use specification_enhancemen.Identity.Revocation.{revoke_spiffe_id}
use specification_enhancemen.Transport.Renewal.{trim_right}

-- What the administrative handlers write; a text for people is left out.
pub data AdminReply : Type 0 where
  refused : (status : ℕ) → AdminReply
  token_created : (token_id secret : String) → (expires_at : Instant) → AdminReply
  ticket_created : (ticket spiffe_id : String) → (expires_at : Instant) → AdminReply
  svids_revoked :
      (spiffe_id : String) → (revoked_serials already_revoked : List String) → AdminReply

-- CreateReplacementTicketRequest and RevokeSPIFFEIDRequest
pub record TicketRequest : Type 0 where
  pub spiffe_id : String
  pub ttl : String

pub record RevocationRequest : Type 0 where
  pub spiffe_id : String
  pub reason : String

-- The TTL of createEnrollmentToken; 0 stands for one that is not positive, as in `parse_duration`,
-- which is time.ParseDuration.
unfoldable pub token_ttl : (String → Option ℕ) → ℕ → String → Option ℕ
token_ttl parse_duration default ttl =
    if ttl == "" then if eqb default 0 then none else some default else parse_duration ttl

-- createEnrollmentToken; `secret` and `id` are the random draws of Create, and the body is its TTL, none
-- where it cannot be decoded.
unfoldable pub create_enrollment_token :
    Platform
    → (String → Option ℕ)
    → ℕ
    → Instant
    → String
    → List ℕ
    → Option String
    → Db
    → AdminReply × Db
unfolding token_ttl
create_enrollment_token p parse_duration default now id secret body db = elim body [
  | none ↦ (refused 400, db)
  | some text ↦ elim (token_ttl parse_duration default text) [
    | none ↦ (refused 400, db)
    | some ttl ↦
        if eqb ttl 0
        then (refused 400, db)
        else let (created, db₁) = create_token id (p.sha256_bytes secret) ttl now db in
          (
            elim created [
              | err _ ↦ refused 500
              | ok expires_at ↦ token_created id (wire p secret) expires_at
            ],
            db₁,
          )
  ]
]

-- There is a slash.
has_slash : String → Bool
has_slash String.[] = false
has_slash (String.◌∷◌ c s) = eqb (code c) 47 || has_slash s

-- What is behind the last slash
last_segment : String → String
unfolding has_slash
last_segment String.[] = ""
last_segment (String.◌∷◌ c s) =
    let rest = last_segment s in
    if has_slash s then rest else if eqb (code c) 47 then s else String.◌∷◌ c s

-- path.Base
unfoldable pub base : String → String
unfolding last_segment
base path =
    let trimmed = trim_right (λ c. eqb c 47) path in
    if path == "" then "." else if trimmed == "" then "/" else last_segment trimmed

-- createReplacementTicket; `secret` is the random draw of Create. The LDI exists or not is the only
-- cause of a bad argument that is left there.
unfoldable pub create_replacement_ticket :
    (String → String)
    → (String → Option ℕ)
    → Instant
    → String
    → Option TicketRequest
    → Db
    → AdminReply × Db
unfolding base
create_replacement_ticket sha256 parse_duration now secret body db = elim body [
  | none ↦ (refused 400, db)
  | some req ↦
      if req.spiffe_id == "" || req.ttl == ""
      then (refused 400, db)
      else elim (parse_duration req.ttl) [
        | none ↦ (refused 400, db)
        | some ttl ↦
            if eqb ttl 0
            then (refused 400, db)
            else let (created, db₁) = create_ticket sha256 secret (base req.spiffe_id) ttl now db in
              (
                elim created [
                  | err e ↦ elim e [ Err.bad_argument ↦ refused 400 | _ ↦ refused 500 ]
                  | ok (ticket, expires_at) ↦ ticket_created ticket req.spiffe_id expires_at
                ],
                db₁,
              )
      ]
]

-- createRevocation, where an operator for revocations is configured
unfoldable pub create_revocation : Instant → Option RevocationRequest → Db → AdminReply × Db
create_revocation now body db = elim body [
  | none ↦ (refused 400, db)
  | some req ↦
      if req.spiffe_id == ""
      then (refused 400, db)
      else let (done, db₁) = revoke_spiffe_id now req.spiffe_id req.reason db in
        (
          elim done [
            | err e ↦ elim e [ Err.not_found ↦ refused 404 | _ ↦ refused 500 ]
            | ok rev ↦
                svids_revoked req.spiffe_id (map (λ e. e.serial_hex) rev.newly_revoked)
                  rev.already_revoked
          ],
          db₁,
        )
]
