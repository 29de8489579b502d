-- ===== src/Bootstrap/FactoryJwt/Once.antt =====
-- Validate of factorycertjwt/validator.go: how often an assertion is accepted.
use specification_enhancemen.Prelude.{
  ◌+◌, ◌<◌, List, ◌≡◌, refl, arith, ok, err, All, Result-cases, inl, inr,
}
use specification_enhancemen.Instant.{Instant}
use specification_enhancemen.Errors.{FactoryJwtErr}
use specification_enhancemen.Platform.{Platform}
use specification_enhancemen.Store.{Db}
use specification_enhancemen.Store.JwtReplay.{witness}
use specification_enhancemen.Store.JwtReplay.Replay.{WitnessCall, witness_all, witness_once}
use specification_enhancemen.Identity.{VerifiedBootstrap}
use specification_enhancemen.Jose.{Jose}
use specification_enhancemen.Bootstrap.{Credential}
use specification_enhancemen.Bootstrap.FactoryJwt.{
  FactoryJwtConfig, FactoryAssertion, check_factory_assertion, validate_factory_assertion,
}

validate_factory_assertion-witness :
    (p : Platform) (jose : Jose) (cfg : FactoryJwtConfig) (now : Instant) (cred : Credential)
    (vb : VerifiedBootstrap) (a : FactoryAssertion) (db db' : Db)
    → validate_factory_assertion p jose cfg now cred db ≡ (ok vb, db')
    → check_factory_assertion p jose cfg now cred ≡ ok a
    → witness now a.jti (a.expiry + cfg.clock_skew) db ≡ (ok tt, db')
unfolding validate_factory_assertion
validate_factory_assertion-witness p jose cfg now cred vb a db db' h e =
    elim (Result-cases (witness now a.jti (a.expiry + cfg.clock_skew) db).0) [
      | inr (x, f) ↦ absurd (ground arith)
      | inl (u, f) ↦ ground arith
    ]

-- While an accepted assertion is not past its expiry and the clock skew, a second one with the same
-- jti that passes every other check, under any configuration of the method, is refused as a replay
-- and changes no table, whatever jtis were witnessed in between before that time.
pub validate_factory_assertion_once :
    (p : Platform) (jose again : Jose) (cfg other : FactoryJwtConfig) (now later : Instant)
    (cred cred' : Credential) (vb : VerifiedBootstrap) (a b : FactoryAssertion)
    (cs : List WitnessCall) (db db' : Db)
    → validate_factory_assertion p jose cfg now cred db ≡ (ok vb, db')
    → check_factory_assertion p jose cfg now cred ≡ ok a
    → check_factory_assertion p again other later cred' ≡ ok b
    → b.jti ≡ a.jti
    → All (λ c. c.now < a.expiry + cfg.clock_skew) cs
    → later < a.expiry + cfg.clock_skew
    → validate_factory_assertion p again other later cred' (witness_all cs db')
      ≡ (err FactoryJwtErr.replayed, witness_all cs db')
unfolding validate_factory_assertion
validate_factory_assertion_once p jose again cfg other now later cred cred' vb a b cs db db'
      accepted passed passes same calls early =
    let seen = validate_factory_assertion-witness p jose cfg now cred vb a db db' accepted passed in
    let refused =
      witness_once a.jti now (a.expiry + cfg.clock_skew) later (b.expiry + other.clock_skew) cs db
        db' seen calls early in
    rw (passes, same, refused, validate_factory_assertion) refl
