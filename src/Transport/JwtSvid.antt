-- ===== src/Transport/JwtSvid.antt =====
-- completed/miaf-poc/pkg/mis/transport/http/jwtsvid.go: POST
-- /api/v1/identities/{spiffeIdEncoded}/jwt-svid.
pub mod Authentication
pub mod Exchange
use text.Mathlib.Text.{starts_with}
use specification_enhancemen.Prelude.{
  ℕ, ◌*◌, ◌%◌, ◌^◌, ltb, String, ◌<>◌, ◌==◌, Bool, true, false, not, Option, none, some, List, [],
  ◌∷◌, Result, ok, err, if◌then◌else◌, eqb,
}
use specification_enhancemen.Instant.{Instant, second}
use specification_enhancemen.Errors.{Err}
use specification_enhancemen.Platform.{Platform, Certificate}
use specification_enhancemen.Store.{Db}
use specification_enhancemen.Store.RenewalEvents.{RenewalEventsConfig, allow, record_renewal}
use specification_enhancemen.Identity.JwtSvid.{Claims, JwtSvidConfig, JwtSvidResult, issue_jwt_svid}
use specification_enhancemen.Bootstrap.Secrets.{is_blank}
use specification_enhancemen.Jose.{Jose}
use specification_enhancemen.JwtExchange.{VerifyConfig, validate_audience, verify_client_assertion}
use specification_enhancemen.Transport.{
  Problem, about_blank, invalid_svid_request, invalid_audience,
}
use specification_enhancemen.Transport.Renewal.{decode_spiffe_id_encoded, trim_right, whole_seconds}

-- JWTSVIDConfig. `anchors` is what the bundle source answers: its X.509 authorities, none for an
-- error. `is_url` says whether url.Parse succeeds.
pub record JwtSvidHandlerConfig : Type 0 where
  pub jose : Jose
  pub is_url : String → Bool
  pub anchors : Option (List Certificate)
  pub has_replay_store : Bool
  pub limit : RenewalEventsConfig
  pub issuer_url : String
  pub endpoint_base : String
  pub max_ttl : ℕ
  pub default_ttl : ℕ
  pub clock_skew : ℕ

-- common.JWTSVIDExchangeRequestDTO; `ttl_seconds` is none for a negative number, and otherwise below
-- 2 ^ 63.
pub record ExchangeRequest : Type 0 where
  pub audience : List String
  pub ttl_seconds : Option ℕ
  pub client_assertion : String

-- The body: too long or unreadable, no JSON of a request, the request
pub data Body : Type 0 where
  unreadable no_json : Body
  decoded : ExchangeRequest → Body

-- What the handler reads of a request; `peer_uris` is as in RenewalRequest.
pub record JwtSvidRequest : Type 0 where
  pub spiffe_id_encoded : String
  pub peer_uris : Option (List String)
  pub authorization : String
  pub body : Body

-- What the handler writes. `limited` is the problem too_many_requests with the seconds of Retry-After.
pub data JwtSvidReply : Type 0 where
  issued : JwtSvidResult → JwtSvidReply
  refused : Problem → JwtSvidReply
  limited : (retry_after : ℕ) → JwtSvidReply

-- NewJWTSVIDHandler: the default TTL that the handler keeps
unfoldable pub handler_default_ttl : JwtSvidHandlerConfig → ℕ
handler_default_ttl cfg = if eqb cfg.default_ttl 0 then cfg.max_ttl else cfg.default_ttl

abbrev pub issue_config : JwtSvidHandlerConfig → JwtSvidConfig
issue_config cfg = record {
  issuer = cfg.issuer_url;
  default_ttl = handler_default_ttl cfg;
  max_ttl = cfg.max_ttl;
}

-- The VerifyConfig of a request for this path
unfoldable pub assertion_config : JwtSvidHandlerConfig → List Certificate → String → VerifyConfig
unfolding trim_right
assertion_config cfg roots encoded = record {
  roots = some roots;
  has_replay = cfg.has_replay_store;
  expected_aud =
      trim_right (λ c. eqb c 47) cfg.endpoint_base
      <> "/api/v1/identities/"
      <> encoded
      <> "/jwt-svid";
  max_lifetime = 5 * 60 * second;
  clock_skew = cfg.clock_skew;
}

-- The authentication: none where it succeeds, and otherwise the problem.
unfoldable pub authenticate :
    JwtSvidHandlerConfig
    → Instant
    → JwtSvidRequest
    → ExchangeRequest
    → String
    → Db
    → Option Problem × Db
authenticate cfg now req body spiffe_id db = elim req.peer_uris [
  | some uris ↦ elim uris [
    | [] ↦ (some (about_blank 401), db)
    | uri ∷ _ ↦ if uri == spiffe_id then (none, db) else (some (about_blank 401), db)
  ]
  | none ↦
      if is_blank body.client_assertion then (some (about_blank 401), db) else elim cfg.anchors [
        | none ↦ (some (about_blank 500), db)
        | some roots ↦
            let (verified, db₁) =
              verify_client_assertion cfg.jose (assertion_config cfg roots req.spiffe_id_encoded)
                now spiffe_id body.client_assertion db in
            (elim verified [ err _ ↦ some (about_blank 401) | ok _ ↦ none ], db₁)
      ]
]

-- time.Duration(seconds) * time.Second in 64 bits; a negative product counts as 0, as IssueJWTSVID
-- takes it.
unfoldable pub seconds_duration : ℕ → ℕ
seconds_duration n =
    let wrapped = (n * second) % 2 ^ 64 in if ltb wrapped (2 ^ 63) then wrapped else 0

-- The answer to an error of IssueJWTSVID
unfoldable pub issue_problem : Err → Problem
issue_problem Err.not_found = about_blank 404
issue_problem Err.new_ldi_forbidden = about_blank 500
issue_problem Err.key_rotation_not_permitted = about_blank 500
issue_problem Err.unsupported_replacement_method = about_blank 500
issue_problem Err.spurious_replacement_authorization = about_blank 500
issue_problem Err.replacement_not_authorized = about_blank 500
issue_problem Err.constraint_failed = about_blank 500
issue_problem Err.bad_argument = about_blank 500
issue_problem Err.issuer_failed = about_blank 500
issue_problem Err.empty_chain = about_blank 500
issue_problem Err.malformed_leaf = about_blank 500
issue_problem Err.malformed_key = about_blank 500
issue_problem Err.signing_failed = about_blank 500

-- handleJWTSVID of an authenticated request: the limit, the issue and the count
unfoldable pub issue_limited :
    JwtSvidHandlerConfig
    → (Claims → Option String)
    → Instant
    → String
    → List String
    → ℕ
    → String
    → Db
    → JwtSvidReply × Db
unfolding issue_problem seconds_duration
issue_limited cfg sign now jti audience ttl_seconds spiffe_id db =
    let (allowed, retry_after) = allow cfg.limit spiffe_id now db in
    if not allowed
    then (limited (whole_seconds retry_after), db)
    else let (result, db₁) =
        issue_jwt_svid sign now jti (issue_config cfg) spiffe_id audience
          (seconds_duration ttl_seconds) db in
      elim result [
        | err e ↦ (refused (issue_problem e), db₁)
        | ok res ↦ (issued res, record_renewal cfg.limit spiffe_id now db₁)
      ]

-- handleJWTSVID with the decoded body
unfoldable pub exchange :
    JwtSvidHandlerConfig
    → (Claims → Option String)
    → Instant
    → String
    → JwtSvidRequest
    → ExchangeRequest
    → String
    → Db
    → JwtSvidReply × Db
unfolding authenticate issue_limited
exchange cfg sign now jti req body spiffe_id db =
    if not (validate_audience cfg.is_url body.audience)
    then (refused invalid_audience, db)
    else elim body.ttl_seconds [
      | none ↦ (refused invalid_svid_request, db)
      | some ttl ↦
          let (problem, db₁) = authenticate cfg now req body spiffe_id db in
          elim problem [
            | some p ↦ (refused p, db₁)
            | none ↦ issue_limited cfg sign now jti body.audience ttl spiffe_id db₁
          ]
    ]

-- handleJWTSVID; `sign` is the signer in this call and `jti` what uuid.NewString draws.
unfoldable pub handle_jwt_svid :
    Platform
    → JwtSvidHandlerConfig
    → (Claims → Option String)
    → Instant
    → String
    → JwtSvidRequest
    → Db
    → JwtSvidReply × Db
unfolding exchange
handle_jwt_svid p cfg sign now jti req db =
    elim (decode_spiffe_id_encoded p req.spiffe_id_encoded) [
      | none ↦ (refused invalid_svid_request, db)
      | some spiffe_id ↦
          if starts_with req.authorization "Bearer "
          then (refused (about_blank 401), db)
          else elim req.body [
            | unreadable ↦ (refused (about_blank 400), db)
            | no_json ↦ (refused invalid_svid_request, db)
            | decoded body ↦ exchange cfg sign now jti req body spiffe_id db
          ]
    ]
