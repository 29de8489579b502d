-- ===== src/JwtExchange.antt =====
-- completed/miaf-poc/pkg/mis/jwtexchange: audience.go and clientassertion.go. A call reads the clock
-- once.
pub mod Accepted
pub mod Once
use specification_enhancemen.Prelude.{
  ℕ, ◌+◌, ◌*◌, String, ◌==◌, Bool, true, false, ◌&&◌, not, Option, none, some, List, [], ◌∷◌,
  Result, ok, err, if◌then◌else◌, eqb,
}
use specification_enhancemen.Instant.{Instant, second}
use specification_enhancemen.Errors.{ChainErr, AssertionErr}
use specification_enhancemen.Platform.{Certificate}
use specification_enhancemen.Store.{Db}
use specification_enhancemen.Store.JwtReplay.{witness}
use specification_enhancemen.Bootstrap.Secrets.{is_blank}
use specification_enhancemen.Jose.{
  Jose, Header, Token, JwtClaims, unexpected_algorithm, unparsable, parsed,
  extract_and_verify_chain, alg_matches_leaf_key, is_sole_audience, is_timely,
}

-- ValidateAudience: there is no error. `is_url` says whether url.Parse succeeds.
unfoldable pub all_urls : (String → Bool) → List String → Bool
all_urls is_url [] = true
all_urls is_url (a ∷ aud) = not (is_blank a) && is_url a && all_urls is_url aud

unfoldable pub validate_audience : (String → Bool) → List String → Bool
unfolding all_urls
validate_audience is_url [] = false
validate_audience is_url (a ∷ aud) = all_urls is_url (a ∷ aud)

-- VerifyConfig: `roots` is none for a nil pool, and `has_replay` tells whether Replay is set; the
-- store is that of the tables.
pub record VerifyConfig : Type 0 where
  pub roots : Option (List Certificate)
  pub has_replay : Bool
  pub expected_aud : String
  pub max_lifetime : ℕ
  pub clock_skew : ℕ

pub record VerifiedClientAssertion : Type 0 where
  pub spiffe_id : String
  pub jti : String
  pub issued_at : Instant
  pub expiry : Instant

unfoldable pub effective_lifetime : VerifyConfig → ℕ
effective_lifetime cfg = if eqb cfg.max_lifetime 0 then 5 * 60 * second else cfg.max_lifetime

abbrev pub chain_error : ChainErr → AssertionErr
chain_error ChainErr.no_x5c = AssertionErr.invalid
chain_error ChainErr.untrusted = AssertionErr.untrusted_chain
chain_error ChainErr.no_chain = AssertionErr.invalid

-- leaf.URIs[0].String() is the SPIFFE ID
unfoldable pub has_uri : Certificate → String → Bool
has_uri leaf spiffe_id = elim leaf.uris [ [] ↦ false | uri ∷ _ ↦ uri == spiffe_id ]

-- From the header to the claims that the leaf's key has signed
unfoldable pub signed_claims :
    List Certificate → String → Token → Header → Result AssertionErr JwtClaims
unfolding has_uri
signed_claims roots spiffe_id token h = elim (extract_and_verify_chain roots h) [
  | err e ↦ err (chain_error e)
  | ok leaf ↦
      if not (has_uri leaf spiffe_id)
      then err AssertionErr.unknown_spiffe_id
      else if not (alg_matches_leaf_key h.algorithm leaf)
      then err AssertionErr.unsupported_alg
      else elim (token.claims leaf.public_key) [ none ↦ err AssertionErr.invalid | some c ↦ ok c ]
]

-- The checks on the claims
unfoldable pub check_claims :
    VerifyConfig → Instant → String → JwtClaims → Result AssertionErr VerifiedClientAssertion
unfolding effective_lifetime
check_claims cfg now spiffe_id c =
    if not (c.issuer == spiffe_id && c.subject == spiffe_id)
    then err AssertionErr.invalid
    else if not (is_sole_audience c.audience cfg.expected_aud)
    then err AssertionErr.invalid
    else elim c.issued_at [
      | none ↦ err AssertionErr.invalid
      | some iat ↦ elim c.expiry [
        | none ↦ err AssertionErr.invalid
        | some exp ↦
            if not (is_timely (effective_lifetime cfg) cfg.clock_skew now iat exp c.not_before)
            then err AssertionErr.invalid
            else if c.id == ""
            then err AssertionErr.invalid
            else ok (record { spiffe_id = spiffe_id; jti = c.id; issued_at = iat; expiry = exp })
      ]
    ]

-- From the parsed token to the jti
unfoldable pub check_token :
    VerifyConfig
    → List Certificate
    → Instant
    → String
    → Token
    → Result AssertionErr VerifiedClientAssertion
unfolding signed_claims check_claims
check_token cfg roots now spiffe_id token = elim token.headers [
  | [] ↦ err AssertionErr.invalid
  | h ∷ more ↦ elim more [
    | _ ∷ _ ↦ err AssertionErr.invalid
    | [] ↦ elim (signed_claims roots spiffe_id token h) [
      | err e ↦ err e
      | ok c ↦ check_claims cfg now spiffe_id c
    ]
  ]
]

-- All that VerifyClientAssertion checks before it asks the replay store
unfoldable pub check_assertion :
    Jose → VerifyConfig → Instant → String → String → Result AssertionErr VerifiedClientAssertion
unfolding check_token
check_assertion jose cfg now spiffe_id compact = elim cfg.roots [
  | none ↦ err AssertionErr.misconfigured
  | some roots ↦
      if not cfg.has_replay
      then err AssertionErr.misconfigured
      else if cfg.expected_aud == ""
      then err AssertionErr.misconfigured
      else if is_blank compact
      then err AssertionErr.missing
      else elim (jose.parse_signed compact) [
        | unexpected_algorithm ↦ err AssertionErr.unsupported_alg
        | unparsable ↦ err AssertionErr.invalid
        | parsed token ↦ check_token cfg roots now spiffe_id token
      ]
]

-- VerifyClientAssertion
unfoldable pub verify_client_assertion :
    Jose
    → VerifyConfig
    → Instant
    → String
    → String
    → Db
    → Result AssertionErr VerifiedClientAssertion × Db
unfolding check_assertion
verify_client_assertion jose cfg now spiffe_id compact db =
    elim (check_assertion jose cfg now spiffe_id compact) [
      | err e ↦ (err e, db)
      | ok v ↦
          let (seen, db₁) = witness now v.jti (v.expiry + cfg.clock_skew) db in
          (elim seen [ err _ ↦ err AssertionErr.replayed | ok _ ↦ ok v ], db₁)
    ]
