-- ===== src/Transport/Renewal.antt =====
-- completed/miaf-poc/pkg/mis/transport/http/renewal.go and spiffeid.go: POST
-- /api/v1/identities/{spiffeIdEncoded}/renewal.
pub mod Admission
use Prim.Native.Char.{code}
use Prim.Native.String.{len, slice}
use text.Mathlib.Text.{starts_with}
use specification_enhancemen.Prelude.{
  ℕ, ◌+◌, ◌-◌, ◌/◌, String, ◌<>◌, ◌==◌, Bool, true, false, ◌&&◌, not, Option, none, some, List, [],
  ◌∷◌, Result, ok, err, if◌then◌else◌, eqb,
}
use specification_enhancemen.Instant.{second}
use specification_enhancemen.Errors.{Err}
use specification_enhancemen.Platform.{Platform}
use specification_enhancemen.CsrParsing.{parse_csr}
use specification_enhancemen.Store.{Db}
use specification_enhancemen.Store.RenewalEvents.{RenewalEventsConfig, allow, record_renewal}
use specification_enhancemen.Identity.{Service, Call}
use specification_enhancemen.Identity.Renewal.{renew}
use specification_enhancemen.Bootstrap.Secrets.{trim_prefix, is_space}
use specification_enhancemen.Transport.{
  Problem, about_blank, invalid_svid_request, unsupported_svid_profile, key_rotation_refused, Reply,
  enrolled, refused, limited,
}
use specification_enhancemen.Transport.Enrollment.{
  svid_profile_uri_x509_v1, EnrollmentRequest, csr_problem, enrollment_response,
}

-- What the handler is configured with. `bearer` verifies a token for an audience and returns the
-- SPIFFE ID of its subject; it is none without a BearerVerifier.
pub record RenewalConfig : Type 0 where
  pub limit : RenewalEventsConfig
  pub bearer : Option (String → String → Option String)
  pub endpoint_base_url : String

-- What the handler reads of a request: `peer_uris` holds the URIs of the first client certificate,
-- none without one; `body` is none where it cannot be read or decoded.
pub record RenewalRequest : Type 0 where
  pub spiffe_id_encoded : String
  pub peer_uris : Option (List String)
  pub authorization : String
  pub body : Option EnrollmentRequest

-- DecodeSPIFFEIDEncoded; every failure is ErrSPIFFEIDEncoding.
unfoldable pub decode_spiffe_id_encoded : Platform → String → Option String
decode_spiffe_id_encoded p encoded =
    if encoded == "" then none else elim (p.decode_raw_url_text encoded) [
      | none ↦ none
      | some s ↦ if not (starts_with s "spiffe://") then none else some s
    ]

-- strings.TrimRight by a test on the characters
unfoldable pub trim_right : (ℕ → Bool) → String → String
trim_right p String.[] = ""
trim_right p (String.◌∷◌ c s) =
    let rest = trim_right p s in if rest == "" && p (code c) then "" else String.◌∷◌ c rest

unfoldable pub trim_left : (ℕ → Bool) → String → String
trim_left p String.[] = ""
trim_left p (String.◌∷◌ c s) =
    let rest = trim_left p s in if p (code c) then rest else String.◌∷◌ c s

-- strings.TrimSpace
abbrev pub trim_space : String → String
trim_space s = trim_left is_space (trim_right is_space s)

abbrev pub renewal_audience : RenewalConfig → String → String
renewal_audience cfg encoded =
    trim_right (λ c. eqb c 47) cfg.endpoint_base_url
    <> "/api/v1/identities/"
    <> encoded
    <> "/renewal"

-- The authentication: every refusal is the same problem, 401.
unfoldable pub is_authenticated : RenewalConfig → RenewalRequest → String → Bool
unfolding trim_left trim_right
is_authenticated cfg req spiffe_id =
    let auth = trim_space req.authorization in
    elim req.peer_uris [
      | some uris ↦ elim uris [ [] ↦ false | uri ∷ _ ↦ uri == spiffe_id ]
      | none ↦ if not (starts_with auth "Bearer ") then false else elim cfg.bearer [
        | none ↦ false
        | some verify ↦
            elim (verify (trim_space (trim_prefix auth "Bearer "))
              (renewal_audience cfg req.spiffe_id_encoded)) [
                | none ↦ false
                | some subject ↦ subject == spiffe_id
              ]
      ]
    ]

-- The answer to an error of Renew
unfoldable pub renewal_problem : Err → Problem
renewal_problem Err.key_rotation_not_permitted = key_rotation_refused
renewal_problem Err.not_found = about_blank 404
renewal_problem Err.new_ldi_forbidden = about_blank 500
renewal_problem Err.unsupported_replacement_method = about_blank 500
renewal_problem Err.spurious_replacement_authorization = about_blank 500
renewal_problem Err.replacement_not_authorized = about_blank 500
renewal_problem Err.constraint_failed = about_blank 500
renewal_problem Err.bad_argument = about_blank 500
renewal_problem Err.issuer_failed = about_blank 500
renewal_problem Err.empty_chain = about_blank 500
renewal_problem Err.malformed_leaf = about_blank 500
renewal_problem Err.malformed_key = about_blank 500
renewal_problem Err.signing_failed = about_blank 500

-- int(math.Ceil(retryAfter.Seconds()))
abbrev pub whole_seconds : ℕ → ℕ
whole_seconds d = (d + (second - 1)) / second

-- handleRenewal of an authenticated request with a body
unfoldable pub renew_request :
    Service → Call → RenewalConfig → String → EnrollmentRequest → Db → Reply × Db
renew_request s c cfg spiffe_id body db =
    if not (body.svid_profile_uri == svid_profile_uri_x509_v1)
    then (refused unsupported_svid_profile, db)
    else elim (parse_csr s.platform body.csr) [
      | err e ↦ (refused (csr_problem e), db)
      | ok csr ↦
          let (allowed, retry_after) = allow cfg.limit spiffe_id c.now db in
          if not allowed
          then (limited (whole_seconds retry_after), db)
          else let (result, db₁) = renew s c spiffe_id csr db in
            elim result [
              | err e ↦ (refused (renewal_problem e), db₁)
              | ok res ↦ (
                enrolled (enrollment_response s.platform res) res.status_code,
                record_renewal cfg.limit spiffe_id c.now db₁,
              )
            ]
    ]

-- handleRenewal
unfoldable pub handle_renewal : Service → Call → RenewalConfig → RenewalRequest → Db → Reply × Db
unfolding renew_request
handle_renewal s c cfg req db = elim (decode_spiffe_id_encoded s.platform req.spiffe_id_encoded) [
  | none ↦ (refused invalid_svid_request, db)
  | some spiffe_id ↦
      if not (is_authenticated cfg req spiffe_id)
      then (refused (about_blank 401), db)
      else elim req.body [
        | none ↦ (refused (about_blank 400), db)
        | some body ↦ renew_request s c cfg spiffe_id body db
      ]
]
