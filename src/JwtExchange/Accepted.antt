-- ===== src/JwtExchange/Accepted.antt =====
-- VerifyClientAssertion of jwtexchange/clientassertion.go: what an accepted assertion carries.
use specification_enhancemen.Prelude.{
  ℕ, ◌+◌, ◌≤◌, ◌==◌, String, true, false, Option, some, List, [], ◌∷◌, ◌≡◌, refl, arith, ok,
  Result-cases, Option-cases, Bool-cases, inl, inr, ◌⊎◌, str_eq→≡, ap,
}
use specification_enhancemen.Instant.{Instant}
use specification_enhancemen.Platform.{Certificate}
use specification_enhancemen.Jose.{
  Jose, Header, Token, JwtClaims, ParseAnswer, unexpected_algorithm, unparsable, parsed,
  extract_and_verify_chain, alg_matches_leaf_key, is_sole_audience, is_timely,
}
use specification_enhancemen.JwtExchange.{
  VerifyConfig, VerifiedClientAssertion, effective_lifetime, has_uri, signed_claims, check_claims,
  check_token, check_assertion,
}

-- The times are in order: the lifetime is kept, `now` is not past the expiry and not before `nbf`,
-- but for the clock skew.
pub record Timely (max_lifetime skew now iat exp : ℕ) (nbf : Option Instant) : Type 0 where
  pub short : exp ≤ iat + max_lifetime
  pub unexpired : now ≤ exp + skew
  pub started : (from : Instant) → nbf ≡ some from → from ≤ now + skew

pub is_timely-Timely :
    (max_lifetime skew now iat exp : ℕ) (nbf : Option Instant)
    → is_timely max_lifetime skew now iat exp nbf ≡ true
    → Timely max_lifetime skew now iat exp nbf
unfolding is_timely
is_timely-Timely max_lifetime skew now iat exp nbf h = record {
  short = ground arith;
  unexpired = ground arith;
  started = λ from e. ground arith;
}

pub is_sole_audience→≡ :
    (aud : List String) (expected : String)
    → is_sole_audience aud expected ≡ true
    → aud ≡ expected ∷ []
unfolding is_sole_audience
is_sole_audience→≡ [] expected h = absurd (ground arith)
is_sole_audience→≡ (a ∷ []) expected h = ap (λ x. x ∷ []) (str_eq→≡ a expected h)
is_sole_audience→≡ (a ∷ b ∷ more) expected h = absurd (ground arith)

-- Claims that name the SPIFFE ID, the endpoint and the times
pub record Claimed (cfg : VerifyConfig) (now : Instant) (spiffe_id : String) (c : JwtClaims)
    (v : VerifiedClientAssertion) : Type 0 where
  pub issuer : c.issuer ≡ spiffe_id
  pub subject : c.subject ≡ spiffe_id
  pub audience : c.audience ≡ cfg.expected_aud ∷ []
  pub issued_at : c.issued_at ≡ some v.issued_at
  pub expiry : c.expiry ≡ some v.expiry
  pub times : Timely (effective_lifetime cfg) cfg.clock_skew now v.issued_at v.expiry c.not_before
  pub jti : c.id ≡ v.jti
  pub named : (v.jti == "") ≡ false
  pub same : v.spiffe_id ≡ spiffe_id

check_claims-Claimed :
    (cfg : VerifyConfig) (now : Instant) (spiffe_id : String) (c : JwtClaims)
    (v : VerifiedClientAssertion)
    → check_claims cfg now spiffe_id c ≡ ok v
    → Claimed cfg now spiffe_id c v
unfolding check_claims
check_claims-Claimed cfg now spiffe_id c v h = elim (Option-cases c.issued_at) [
  | inl e ↦ absurd (ground arith)
  | inr (iat, e) ↦ elim (Option-cases c.expiry) [
    | inl f ↦ absurd (ground arith)
    | inr (exp, f) ↦
        elim (Bool-cases
          (is_timely (effective_lifetime cfg) cfg.clock_skew now iat exp c.not_before)) [
            | inr g ↦ absurd (ground arith)
            | inl g ↦
                let made : v
                    ≡ record { spiffe_id = spiffe_id; jti = c.id; issued_at = iat; expiry = exp } =
                  ground arith in
                rw made (record {
                  issuer = str_eq→≡ c.issuer spiffe_id (ground arith);
                  subject = str_eq→≡ c.subject spiffe_id (ground arith);
                  audience = is_sole_audience→≡ c.audience cfg.expected_aud (ground arith);
                  issued_at = e;
                  expiry = f;
                  times = is_timely-Timely _ _ now iat exp c.not_before g;
                  jti = refl;
                  named = ground arith;
                  same = refl;
                })
          ]
  ]
]

-- A verified chain whose leaf names the SPIFFE ID, and claims signed with the leaf's key
pub record Signed (roots : List Certificate) (spiffe_id : String) (token : Token) (h : Header)
    (c : JwtClaims) : Type 0 where
  pub leaf : Certificate
  pub chained : extract_and_verify_chain roots h ≡ ok leaf
  pub named_leaf : has_uri leaf spiffe_id ≡ true
  pub suited : alg_matches_leaf_key h.algorithm leaf ≡ true
  pub signed : token.claims leaf.public_key ≡ some c

signed_claims-Signed :
    (roots : List Certificate) (spiffe_id : String) (token : Token) (h : Header) (c : JwtClaims)
    → signed_claims roots spiffe_id token h ≡ ok c
    → Signed roots spiffe_id token h c
unfolding signed_claims
signed_claims-Signed roots spiffe_id token h c e =
    elim (Result-cases (extract_and_verify_chain roots h)) [
      | inr (x, f) ↦ absurd (ground arith)
      | inl (leaf, f) ↦ record {
        leaf = leaf;
        chained = f;
        named_leaf = ground arith;
        suited = ground arith;
        signed = ground arith;
      }
    ]

-- What stands behind an accepted assertion
pub record Vouched (jose : Jose) (cfg : VerifyConfig) (now : Instant) (spiffe_id compact : String)
    (v : VerifiedClientAssertion) : Type 0 where
  pub roots : List Certificate
  pub token : Token
  pub header : Header
  pub claims : JwtClaims
  pub trusted : cfg.roots ≡ some roots
  pub read : jose.parse_signed compact ≡ parsed token
  pub alone : token.headers ≡ header ∷ []
  pub signed : Signed roots spiffe_id token header claims
  pub claimed : Claimed cfg now spiffe_id claims v

pub ParseAnswer-cases :
    (a : ParseAnswer)
    → ((t : Token) × (a ≡ parsed t)) ⊎ ((a ≡ unexpected_algorithm) ⊎ (a ≡ unparsable))
ParseAnswer-cases unexpected_algorithm = inr (inl refl)
ParseAnswer-cases unparsable = inr (inr refl)
ParseAnswer-cases (parsed t) = inl (t, refl)

pub sole_header :
    (cfg : VerifyConfig) (roots : List Certificate) (now : Instant) (spiffe_id : String)
    (token : Token) (v : VerifiedClientAssertion)
    → check_token cfg roots now spiffe_id token ≡ ok v
    → (h : Header) × (token.headers ≡ h ∷ [])
unfolding check_token
sole_header cfg roots now spiffe_id token v e = ground arith

check_token-Vouched :
    (jose : Jose) (cfg : VerifyConfig) (roots : List Certificate) (now : Instant)
    (spiffe_id compact : String) (token : Token) (v : VerifiedClientAssertion)
    → cfg.roots ≡ some roots
    → jose.parse_signed compact ≡ parsed token
    → check_token cfg roots now spiffe_id token ≡ ok v
    → Vouched jose cfg now spiffe_id compact v
unfolding check_token
check_token-Vouched jose cfg roots now spiffe_id compact token v trusted read e =
    let (h, alone) = sole_header cfg roots now spiffe_id token v e in
    elim (Result-cases (signed_claims roots spiffe_id token h)) [
      | inr (x, f) ↦ absurd (ground arith)
      | inl (c, f) ↦ record {
        roots = roots;
        token = token;
        header = h;
        claims = c;
        trusted = trusted;
        read = read;
        alone = alone;
        signed = signed_claims-Signed roots spiffe_id token h c f;
        claimed = check_claims-Claimed cfg now spiffe_id c v (ground arith);
      }
    ]

-- An assertion that passes all checks is a token with one header, whose chain verifies under the trust
-- anchors, whose leaf names the SPIFFE ID of the path and whose algorithm fits the leaf; it is signed
-- with the leaf's key, and its claims name the SPIFFE ID as issuer and subject, the endpoint as the
-- only audience, a lifetime within the limit that contains the time of the request but for the clock
-- skew, and a jti.
pub check_assertion-Vouched :
    (jose : Jose) (cfg : VerifyConfig) (now : Instant) (spiffe_id compact : String)
    (v : VerifiedClientAssertion)
    → check_assertion jose cfg now spiffe_id compact ≡ ok v
    → Vouched jose cfg now spiffe_id compact v
unfolding check_assertion
check_assertion-Vouched jose cfg now spiffe_id compact v h = elim (Option-cases cfg.roots) [
  | inl e ↦ absurd (ground arith)
  | inr (roots, e) ↦ elim (ParseAnswer-cases (jose.parse_signed compact)) [
    | inr f ↦ absurd (ground arith)
    | inl (token, f) ↦
        check_token-Vouched jose cfg roots now spiffe_id compact token v e f (ground arith)
  ]
]
