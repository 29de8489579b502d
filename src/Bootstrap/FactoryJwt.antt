-- ===== src/Bootstrap/FactoryJwt.antt =====
-- completed/miaf-poc/pkg/mis/bootstrap/factorycertjwt/validator.go. A call reads the clock once.
pub mod Accepted
pub mod Once
use specification_enhancemen.Prelude.{
  ℕ, ◌+◌, ◌*◌, String, ◌<>◌, ◌==◌, not, Option, none, some, List, [], ◌∷◌, Result, ok, err,
  if◌then◌else◌, eqb,
}
use specification_enhancemen.Instant.{Instant, second}
use specification_enhancemen.Errors.{ChainErr, FactoryJwtErr, BootstrapErr}
use specification_enhancemen.Platform.{Platform, Certificate}
use specification_enhancemen.Store.{Db}
use specification_enhancemen.Store.JwtReplay.{witness}
use specification_enhancemen.Identity.{VerifiedBootstrap}
use specification_enhancemen.Jose.{
  Jose, Header, Token, JwtClaims, unexpected_algorithm, unparsable, parsed,
  extract_and_verify_chain, alg_matches_leaf_key, is_sole_audience, is_timely,
}
use specification_enhancemen.Bootstrap.{Credential, ValidationOutcome, pending, Validator}
use specification_enhancemen.Bootstrap.Secrets.{is_blank}

-- Config, with what New panics without
pub record FactoryJwtConfig : Type 0 where
  pub roots : List Certificate
  pub audience : String
  pub clock_skew : ℕ
  pub max_assertion_lifetime : ℕ

-- New
unfoldable pub effective_config : FactoryJwtConfig → FactoryJwtConfig
effective_config cfg = record cfg {
  clock_skew = if eqb cfg.clock_skew 0 then 30 * second else cfg.clock_skew;
  max_assertion_lifetime =
      if eqb cfg.max_assertion_lifetime 0 then 5 * 60 * second else cfg.max_assertion_lifetime;
}

-- What the assertion proves: the leaf, its jti and its expiry
pub record FactoryAssertion : Type 0 where
  pub leaf : Certificate
  pub jti : String
  pub expiry : Instant

abbrev pub factory_chain_error : ChainErr → FactoryJwtErr
factory_chain_error ChainErr.no_x5c = FactoryJwtErr.malformed_assertion
factory_chain_error ChainErr.untrusted = FactoryJwtErr.untrusted_chain
factory_chain_error ChainErr.no_chain = FactoryJwtErr.malformed_assertion

-- hexFingerprint
unfoldable pub hex_fingerprint : Platform → String → String
hex_fingerprint p raw = p.hex (p.sha256 raw)

-- The checks on the claims
unfoldable pub check_factory_claims :
    Platform
    → FactoryJwtConfig
    → Instant
    → Certificate
    → JwtClaims
    → Result FactoryJwtErr FactoryAssertion
unfolding hex_fingerprint
check_factory_claims p cfg now leaf c =
    if not (c.issuer == "urn:margo:device:sha256:" <> hex_fingerprint p leaf.raw)
    then err FactoryJwtErr.claim_invalid
    else if not (c.subject == c.issuer)
    then err FactoryJwtErr.claim_invalid
    else if not (is_sole_audience c.audience cfg.audience)
    then err FactoryJwtErr.claim_invalid
    else elim c.expiry [
      | none ↦ err FactoryJwtErr.claim_missing
      | some exp ↦ elim c.issued_at [
        | none ↦ err FactoryJwtErr.claim_missing
        | some iat ↦
            if not (is_timely cfg.max_assertion_lifetime cfg.clock_skew now iat exp c.not_before)
            then err FactoryJwtErr.claim_invalid
            else if is_blank c.raw_jti
            then err FactoryJwtErr.claim_missing
            else ok (record { leaf = leaf; jti = c.raw_jti; expiry = exp })
      ]
    ]

-- Validate with the only header of the token
unfoldable pub check_factory_header :
    Platform → FactoryJwtConfig → Instant → Token → Header → Result FactoryJwtErr FactoryAssertion
unfolding check_factory_claims
check_factory_header p cfg now token h = elim (extract_and_verify_chain cfg.roots h) [
  | err e ↦ err (factory_chain_error e)
  | ok leaf ↦
      if not (alg_matches_leaf_key h.algorithm leaf)
      then err FactoryJwtErr.unsupported_alg
      else elim (token.claims leaf.public_key) [
        | none ↦ err FactoryJwtErr.bad_signature
        | some c ↦ check_factory_claims p cfg now leaf c
      ]
]

-- All that Validate checks before it asks the replay store
unfoldable pub check_factory_assertion :
    Platform
    → Jose
    → FactoryJwtConfig
    → Instant
    → Credential
    → Result FactoryJwtErr FactoryAssertion
unfolding check_factory_header
check_factory_assertion p jose cfg now cred = elim cred.proof [
  | none ↦ err FactoryJwtErr.missing_assertion
  | some proof ↦
      if is_blank proof.assertion
      then err FactoryJwtErr.missing_assertion
      else elim (jose.parse_signed proof.assertion) [
        | unexpected_algorithm ↦ err FactoryJwtErr.unsupported_alg
        | unparsable ↦ err FactoryJwtErr.malformed_assertion
        | parsed token ↦ elim token.headers [
          | [] ↦ err FactoryJwtErr.malformed_assertion
          | h ∷ more ↦ elim more [
            | _ ∷ _ ↦ err FactoryJwtErr.malformed_assertion
            | [] ↦ check_factory_header p cfg now token h
          ]
        ]
      ]
]

-- Validate, under the configuration that New keeps
unfoldable pub validate_factory_assertion :
    Platform
    → Jose
    → FactoryJwtConfig
    → Instant
    → Credential
    → Db
    → Result FactoryJwtErr VerifiedBootstrap × Db
unfolding check_factory_assertion
validate_factory_assertion p jose cfg now cred db =
    elim (check_factory_assertion p jose cfg now cred) [
      | err e ↦ (err e, db)
      | ok a ↦
          let (seen, db₁) = witness now a.jti (a.expiry + cfg.clock_skew) db in
          (
            elim seen [
              | err _ ↦ err FactoryJwtErr.replayed
              | ok _ ↦ ok (record { method = cred.method; esi = p.sha256 a.leaf.raw })
            ],
            db₁,
          )
    ]

-- The Validator of this method; it has no Commit, and the handler of an enrollment knows all of its
-- errors.
unfoldable pub factory_jwt_validator : Platform → Jose → FactoryJwtConfig → Validator
unfolding validate_factory_assertion effective_config
factory_jwt_validator p jose cfg = record {
  Evidence = Unit {0};
  validate = λ now cred _ _ db.
      let (verified, db₁) = validate_factory_assertion p jose (effective_config cfg) now cred db in
      (elim verified [ err _ ↦ err BootstrapErr.proof_rejected | ok vb ↦ ok (pending vb tt) ], db₁);
  commit = λ _ _ _ _ _ _ db. db;
}
