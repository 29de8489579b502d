-- ===== src/Jose.antt =====
-- What the server takes from go-jose/v4 and crypto/x509 to verify a signed assertion, as the fields
-- of a record, and the steps that pkg/mis/jwtexchange/clientassertion.go and
-- pkg/mis/bootstrap/factorycertjwt/validator.go have in common.
use specification_enhancemen.Prelude.{
  ℕ, ◌+◌, ◌-◌, String, ◌==◌, Bool, true, false, ◌&&◌, not, Option, none, some, List, [], ◌∷◌,
  Result, ok, err, ltb,
}
use specification_enhancemen.Instant.{Instant}
use specification_enhancemen.Errors.{ChainErr}
use specification_enhancemen.Platform.{Certificate, ecdsa, rsa, other_key}

-- jwt.Claims, with "jti" of the raw claims where that is a text, and otherwise the empty one
pub record JwtClaims : Type 0 where
  pub issuer : String
  pub subject : String
  pub audience : List String
  pub issued_at : Option Instant
  pub expiry : Option Instant
  pub not_before : Option Instant
  pub id : String
  pub raw_jti : String

-- What Header.Certificates returns: ErrMissingX5cHeader, another error, the chains
pub data ChainAnswer : Type 0 where
  missing_x5c unverified : ChainAnswer
  chains : List (List Certificate) → ChainAnswer

-- jose.Header: `certificates` is the method of that name, with these roots, the key usage ClientAuth
-- and the time of the call.
pub record Header : Type 0 where
  pub algorithm : String
  pub certificates : List Certificate → ChainAnswer

-- jwt.JSONWebToken: `claims` is the method Claims under a public key, none where that fails.
pub record Token : Type 0 where
  pub headers : List Header
  pub claims : String → Option JwtClaims

-- What jwt.ParseSigned returns for the algorithms ES256 and PS256: the error with the text
-- "unexpected signature algorithm", another error, the token
pub data ParseAnswer : Type 0 where
  unexpected_algorithm unparsable : ParseAnswer
  parsed : Token → ParseAnswer

pub record Jose : Type 0 where
  pub parse_signed : String → ParseAnswer

-- extractAndVerifyChain
unfoldable pub extract_and_verify_chain : List Certificate → Header → Result ChainErr Certificate
extract_and_verify_chain roots h = elim (h.certificates roots) [
  | missing_x5c ↦ err ChainErr.no_x5c
  | unverified ↦ err ChainErr.untrusted
  | chains cs ↦ elim cs [
    | [] ↦ err ChainErr.no_chain
    | chain ∷ _ ↦ elim chain [ [] ↦ err ChainErr.no_chain | leaf ∷ _ ↦ ok leaf ]
  ]
]

-- algMatchesLeafKey: there is no error.
unfoldable pub alg_matches_leaf_key : String → Certificate → Bool
alg_matches_leaf_key alg leaf = elim leaf.key_kind [
  | ecdsa _ ↦ alg == "ES256"
  | rsa _ ↦ alg == "PS256"
  | other_key ↦ false
]

-- len(std.Audience) == 1 && std.Audience[0] == expected
unfoldable pub is_sole_audience : List String → String → Bool
is_sole_audience [] expected = false
is_sole_audience (a ∷ []) expected = a == expected
is_sole_audience (a ∷ b ∷ more) expected = false

-- The checks on the times of the claims. exp.Sub(iat) stops at 0 here; the code compares it with a
-- lifetime that is not negative.
unfoldable pub is_timely : ℕ → ℕ → Instant → Instant → Instant → Option Instant → Bool
is_timely max_lifetime skew now iat exp nbf =
    not (ltb max_lifetime (exp - iat))
    && not (ltb (exp + skew) now)
    && (elim nbf [ none ↦ true | some from ↦ not (ltb (now + skew) from) ])
