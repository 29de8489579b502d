-- ===== src/Bootstrap/FactoryJwt/Accepted.antt =====
-- Validate of factorycertjwt/validator.go: what an accepted assertion proves.
use specification_enhancemen.Prelude.{
  ◌<>◌, false, true, some, [], ◌∷◌, ◌≡◌, refl, arith, ok, Result-cases, Option-cases, Bool-cases,
  inl, inr, str_eq→≡, ◌∙◌,
}
use specification_enhancemen.Instant.{Instant}
use specification_enhancemen.Platform.{Platform, Certificate}
use specification_enhancemen.Jose.{
  Jose, Header, Token, JwtClaims, parsed, extract_and_verify_chain, alg_matches_leaf_key, is_timely,
}
use specification_enhancemen.JwtExchange.Accepted.{
  Timely, is_timely-Timely, is_sole_audience→≡, ParseAnswer-cases,
}
use specification_enhancemen.Bootstrap.{Proof, Credential}
use specification_enhancemen.Bootstrap.Secrets.{is_blank}
use specification_enhancemen.Bootstrap.FactoryJwt.{
  FactoryJwtConfig, FactoryAssertion, hex_fingerprint, check_factory_claims, check_factory_header,
  check_factory_assertion,
}

-- The claims of an accepted assertion of this leaf
pub record FactoryClaimed (p : Platform) (cfg : FactoryJwtConfig) (now : Instant) (c : JwtClaims)
    (a : FactoryAssertion) : Type 0 where
  pub issuer : c.issuer ≡ "urn:margo:device:sha256:" <> hex_fingerprint p a.leaf.raw
  pub subject : c.subject ≡ "urn:margo:device:sha256:" <> hex_fingerprint p a.leaf.raw
  pub audience : c.audience ≡ cfg.audience ∷ []
  pub issued_at : Instant
  pub issued : c.issued_at ≡ some issued_at
  pub expires : c.expiry ≡ some a.expiry
  pub times : Timely cfg.max_assertion_lifetime cfg.clock_skew now issued_at a.expiry c.not_before
  pub inked : is_blank a.jti ≡ false

check_factory_claims-leaf :
    (p : Platform) (cfg : FactoryJwtConfig) (now : Instant) (leaf : Certificate) (c : JwtClaims)
    (a : FactoryAssertion)
    → check_factory_claims p cfg now leaf c ≡ ok a
    → (a.leaf ≡ leaf) × FactoryClaimed p cfg now c a
unfolding check_factory_claims
check_factory_claims-leaf p cfg now leaf c a h = elim (Option-cases c.issued_at) [
  | inl e ↦ absurd (ground arith)
  | inr (iat, e) ↦ elim (Option-cases c.expiry) [
    | inl f ↦ absurd (ground arith)
    | inr (exp, f) ↦
        elim (Bool-cases
          (is_timely cfg.max_assertion_lifetime cfg.clock_skew now iat exp c.not_before)) [
            | inr g ↦ absurd (ground arith)
            | inl g ↦
                let made : a ≡ record { leaf = leaf; jti = c.raw_jti; expiry = exp } =
                  ground arith in
                let urn = "urn:margo:device:sha256:" <> hex_fingerprint p leaf.raw in
                let who : c.issuer ≡ urn = str_eq→≡ c.issuer urn (ground arith) in
                let same : c.subject ≡ c.issuer = str_eq→≡ c.subject c.issuer (ground arith) in
                let aud : c.audience ≡ cfg.audience ∷ [] =
                  is_sole_audience→≡ c.audience cfg.audience (ground arith) in
                let inked : is_blank c.raw_jti ≡ false = ground arith in
                let times = is_timely-Timely _ _ now iat exp c.not_before g in
                rw made (
                  refl,
                  record {
                    issuer = who;
                    subject = same ∙ who;
                    audience = aud;
                    issued_at = iat;
                    issued = e;
                    expires = f;
                    times = times;
                    inked = inked;
                  },
                )
          ]
  ]
]

-- Where the proof of an accepted bootstrap comes from
pub record Proven (p : Platform) (jose : Jose) (cfg : FactoryJwtConfig) (now : Instant)
    (cred : Credential) (a : FactoryAssertion) : Type 0 where
  pub proof : Proof
  pub token : Token
  pub header : Header
  pub claims : JwtClaims
  pub given : cred.proof ≡ some proof
  pub read : jose.parse_signed proof.assertion ≡ parsed token
  pub alone : token.headers ≡ header ∷ []
  pub chained : extract_and_verify_chain cfg.roots header ≡ ok a.leaf
  pub suited : alg_matches_leaf_key header.algorithm a.leaf ≡ true
  pub signed : token.claims a.leaf.public_key ≡ some claims
  pub claimed : FactoryClaimed p cfg now claims a

check_factory_header-ok :
    (p : Platform) (cfg : FactoryJwtConfig) (now : Instant) (token : Token) (h : Header)
    (a : FactoryAssertion)
    → check_factory_header p cfg now token h ≡ ok a
    → (c : JwtClaims) × (extract_and_verify_chain cfg.roots h ≡ ok a.leaf)
      × (alg_matches_leaf_key h.algorithm a.leaf ≡ true)
      × (token.claims a.leaf.public_key ≡ some c)
      × FactoryClaimed p cfg now c a
unfolding check_factory_header
check_factory_header-ok p cfg now token h a e =
    elim (Result-cases (extract_and_verify_chain cfg.roots h)) [
      | inr (x, f) ↦ absurd (ground arith)
      | inl (leaf, f) ↦ elim (Option-cases (token.claims leaf.public_key)) [
        | inl g ↦ absurd (ground arith)
        | inr (c, g) ↦
            let suited : alg_matches_leaf_key h.algorithm leaf ≡ true = ground arith in
            let (own, claimed) = check_factory_claims-leaf p cfg now leaf c a (ground arith) in
            (c, rw own f, rw own suited, rw own g, claimed)
      ]
    ]

-- An accepted assertion is a token with one header, whose chain verifies under the factory roots and
-- whose algorithm fits the leaf; it is signed with the leaf's key, and its claims name the leaf's
-- fingerprint as issuer and subject, the endpoint as the only audience, a lifetime within the limit
-- that contains the time of the request but for the clock skew, and a jti.
pub check_factory_assertion-Proven :
    (p : Platform) (jose : Jose) (cfg : FactoryJwtConfig) (now : Instant) (cred : Credential)
    (a : FactoryAssertion)
    → check_factory_assertion p jose cfg now cred ≡ ok a
    → Proven p jose cfg now cred a
unfolding check_factory_assertion
check_factory_assertion-Proven p jose cfg now cred a h = elim (Option-cases cred.proof) [
  | inl e ↦ absurd (ground arith)
  | inr (proof, e) ↦ elim (ParseAnswer-cases (jose.parse_signed proof.assertion)) [
    | inr f ↦ absurd (ground arith)
    | inl (token, f) ↦
        let (hd, alone) : (hd : Header) × (token.headers ≡ hd ∷ []) = ground arith in
        let (c, chained, suited, signed, claimed) =
          check_factory_header-ok p cfg now token hd a (ground arith) in
        record {
          proof = proof;
          token = token;
          header = hd;
          claims = c;
          given = e;
          read = f;
          alone = alone;
          chained = chained;
          suited = suited;
          signed = signed;
          claimed = claimed;
        }
  ]
]
