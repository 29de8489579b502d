-- ===== src/JwtExchange/Once.antt =====
-- VerifyClientAssertion of jwtexchange/clientassertion.go over a sequence of requests.
use specification_enhancemen.Prelude.{
  ◌+◌, ◌<◌, ◌≤◌, String, List, ◌≡◌, refl, arith, ok, err, All, Result-cases, inl, inr,
}
use specification_enhancemen.Instant.{Instant}
use specification_enhancemen.Errors.{AssertionErr}
use specification_enhancemen.Store.{Db}
use specification_enhancemen.Store.JwtReplay.{witness}
use specification_enhancemen.Store.JwtReplay.Replay.{
  WitnessCall, witness_all, witness_once, witness_expired,
}
use specification_enhancemen.Jose.{Jose, Token, JwtClaims, is_timely}
use specification_enhancemen.Platform.{Certificate}
use specification_enhancemen.JwtExchange.Accepted.{sole_header, check_assertion-Vouched}
use specification_enhancemen.JwtExchange.{
  check_token, check_claims, signed_claims, VerifyConfig, VerifiedClientAssertion, check_assertion,
  verify_client_assertion,
}

pub verify_client_assertion-ok :
    (jose : Jose) (cfg : VerifyConfig) (now : Instant) (spiffe_id compact : String)
    (v : VerifiedClientAssertion) (db db' : Db)
    → verify_client_assertion jose cfg now spiffe_id compact db ≡ (ok v, db')
    → (check_assertion jose cfg now spiffe_id compact ≡ ok v)
      × (witness now v.jti (v.expiry + cfg.clock_skew) db ≡ (ok tt, db'))
unfolding verify_client_assertion
verify_client_assertion-ok jose cfg now spiffe_id compact v db db' h =
    elim (Result-cases (check_assertion jose cfg now spiffe_id compact)) [
      | inr (x, e) ↦ absurd (ground arith)
      | inl (w, e) ↦ elim (Result-cases (witness now w.jti (w.expiry + cfg.clock_skew) db).0) [
        | inr (x, f) ↦ absurd (ground arith)
        | inl (u, f) ↦ (ground arith, ground arith)
      ]
    ]

-- While an accepted assertion is not past its expiry and the clock skew, a second assertion with the
-- same jti that passes every other check, for any SPIFFE ID and under any configuration, is refused
-- as a replay and changes no table, whatever jtis were witnessed in between before that time.
pub verify_client_assertion_once :
    (jose again : Jose) (cfg other : VerifyConfig) (now later : Instant)
    (spiffe_id compact spiffe_id' compact' : String) (v w : VerifiedClientAssertion)
    (cs : List WitnessCall) (db db' : Db)
    → verify_client_assertion jose cfg now spiffe_id compact db ≡ (ok v, db')
    → check_assertion again other later spiffe_id' compact' ≡ ok w
    → w.jti ≡ v.jti
    → All (λ c. c.now < v.expiry + cfg.clock_skew) cs
    → later < v.expiry + cfg.clock_skew
    → verify_client_assertion again other later spiffe_id' compact' (witness_all cs db')
      ≡ (err AssertionErr.replayed, witness_all cs db')
unfolding verify_client_assertion
verify_client_assertion_once jose again cfg other now later spiffe_id compact spiffe_id' compact' v
      w cs db db' accepted passes same calls early =
    let (_, seen) = verify_client_assertion-ok jose cfg now spiffe_id compact v db db' accepted in
    let refused =
      witness_once v.jti now (v.expiry + cfg.clock_skew) later (w.expiry + other.clock_skew) cs db
        db' seen calls early in
    rw (passes, same, refused, verify_client_assertion) refl

check_claims_later :
    (cfg : VerifyConfig) (now later : Instant) (spiffe_id : String) (c : JwtClaims)
    (v : VerifiedClientAssertion)
    → check_claims cfg now spiffe_id c ≡ ok v
    → now ≤ later
    → later ≤ v.expiry + cfg.clock_skew
    → check_claims cfg later spiffe_id c ≡ ok v
unfolding check_claims is_timely
check_claims_later cfg now later spiffe_id c v h after early = ground arith

check_token_later :
    (cfg : VerifyConfig) (roots : List Certificate) (now later : Instant) (spiffe_id : String)
    (token : Token) (v : VerifiedClientAssertion)
    → check_token cfg roots now spiffe_id token ≡ ok v
    → now ≤ later
    → later ≤ v.expiry + cfg.clock_skew
    → check_token cfg roots later spiffe_id token ≡ ok v
unfolding check_token
check_token_later cfg roots now later spiffe_id token v h after early =
    let (hd, alone) = sole_header cfg roots now spiffe_id token v h in
    elim (Result-cases (signed_claims roots spiffe_id token hd)) [
      | inr (x, f) ↦ absurd (ground arith)
      | inl (c, f) ↦
          let last = check_claims_later cfg now later spiffe_id c v (ground arith) after early in
          ground arith
    ]

check_assertion_later :
    (jose : Jose) (cfg : VerifyConfig) (now later : Instant) (spiffe_id compact : String)
    (v : VerifiedClientAssertion)
    → check_assertion jose cfg now spiffe_id compact ≡ ok v
    → now ≤ later
    → later ≤ v.expiry + cfg.clock_skew
    → check_assertion jose cfg later spiffe_id compact ≡ ok v
unfolding check_assertion
check_assertion_later jose cfg now later spiffe_id compact v h after early =
    let c = check_assertion-Vouched jose cfg now spiffe_id compact v h in
    let kept =
      check_token_later cfg c.roots now later spiffe_id c.token v
        (ground (arith, c.trusted, c.read)) after early in
    ground (arith, c.trusted, c.read)

-- At the instant of its expiry plus the clock skew the very same assertion is accepted a second time,
-- whatever jtis were witnessed in between before that instant, where the chain still verifies.
pub verify_client_assertion-last_instant :
    (jose : Jose) (cfg : VerifyConfig) (now : Instant) (spiffe_id compact : String)
    (v : VerifiedClientAssertion) (cs : List WitnessCall) (db db' : Db)
    → verify_client_assertion jose cfg now spiffe_id compact db ≡ (ok v, db')
    → All (λ c. c.now < v.expiry + cfg.clock_skew) cs
    → (verify_client_assertion jose cfg
        (v.expiry + cfg.clock_skew)
        spiffe_id
        compact
        (witness_all cs db')).0
      ≡ ok v
unfolding verify_client_assertion
verify_client_assertion-last_instant jose cfg now spiffe_id compact v cs db db' accepted calls =
    let until = v.expiry + cfg.clock_skew in
    let (passed, seen) =
      verify_client_assertion-ok jose cfg now spiffe_id compact v db db' accepted in
    let times = (check_assertion-Vouched jose cfg now spiffe_id compact v passed).claimed.times in
    let passes =
      check_assertion_later jose cfg now until spiffe_id compact v passed times.unexpired
        (omega arith) in
    let stale = witness_expired v.jti now until until until cs db db' seen calls (omega arith) in
    ground (arith, passes, stale)
