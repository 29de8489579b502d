-- ===== src/Examples/Assertions.antt =====
-- Instances of the theorems on signed assertions, at a device that holds the leaf a.
use specification_enhancemen.Prelude.{
  String, ◌==◌, ◌*◌, ◌≡◌, refl, true, none, some, List, [], ◌∷◌, ok, err, arith, if◌then◌else◌,
}
use specification_enhancemen.Instant.{second}
use specification_enhancemen.Errors.{AssertionErr, FactoryJwtErr}
use specification_enhancemen.Platform.{Certificate}
use specification_enhancemen.Store.{Db}
use specification_enhancemen.Store.JwtReplay.{remember_jti, witness}
use specification_enhancemen.Store.JwtReplay.Replay.{WitnessCall, witness_all}
use specification_enhancemen.Identity.{VerifiedBootstrap}
use specification_enhancemen.Jose.{
  Jose, JwtClaims, Token, parsed, unparsable, chains, extract_and_verify_chain,
  alg_matches_leaf_key, is_sole_audience, is_timely,
}
use specification_enhancemen.JwtExchange.{
  VerifyConfig, VerifiedClientAssertion, effective_lifetime, has_uri, signed_claims, check_claims,
  check_token, check_assertion, verify_client_assertion,
}
use specification_enhancemen.JwtExchange.Accepted.{Vouched, check_assertion-Vouched}
use specification_enhancemen.JwtExchange.Once.{
  verify_client_assertion_once, verify_client_assertion-last_instant,
}
use specification_enhancemen.Bootstrap.{Credential}
use specification_enhancemen.Bootstrap.Secrets.{is_blank}
use specification_enhancemen.Bootstrap.FactoryJwt.{
  FactoryJwtConfig, FactoryAssertion, hex_fingerprint, check_factory_claims, check_factory_header,
  check_factory_assertion, validate_factory_assertion,
}
use specification_enhancemen.Bootstrap.FactoryJwt.Accepted.{Proven, check_factory_assertion-Proven}
use specification_enhancemen.Bootstrap.FactoryJwt.Once.{validate_factory_assertion_once}
use specification_enhancemen.Examples.{at, platform, certificate, spiffe_1, one_device}

abbrev leaf : Certificate
leaf = record (certificate "leaf-a" "A1" "key-a") { uris = spiffe_1 ∷ [] }

abbrev endpoint : String
endpoint = "https://mis.example.com/api/v1/identities/id-1/jwt-svid"

abbrev claims : String → String → JwtClaims
claims who aud = record {
  issuer = who;
  subject = who;
  audience = aud ∷ [];
  issued_at = some (at 100);
  expiry = some (at 300);
  not_before = none;
  id = "jti-1";
  raw_jti = "jti-1";
}

-- A token with this chain of one leaf, signed with its key
abbrev signed : JwtClaims → Token
signed c = record {
  headers = record { algorithm = "ES256"; certificates = λ _. chains ((leaf ∷ []) ∷ []) } ∷ [];
  claims = λ key. if key == "key-a" then some c else none;
}

abbrev urn : String
urn = "urn:margo:device:sha256:sha256:leaf-a"

abbrev pub jose : Jose
jose = record {
  parse_signed = λ s.
      if s == "client"
      then parsed (signed (claims spiffe_1 endpoint))
      else if s == "factory"
      then parsed (signed (claims urn "https://mis.example.com/api/v1/identities"))
      else unparsable;
}

abbrev config : VerifyConfig
config = record {
  roots = some [];
  has_replay = true;
  expected_aud = endpoint;
  max_lifetime = 300 * second;
  clock_skew = 30 * second;
}

abbrev verified : VerifiedClientAssertion
verified = record { spiffe_id = spiffe_1; jti = "jti-1"; issued_at = at 100; expiry = at 300 }

passes : check_assertion jose config (at 200) spiffe_1 "client" ≡ ok verified
unfolding check_assertion check_token signed_claims check_claims effective_lifetime has_uri
    extract_and_verify_chain alg_matches_leaf_key is_sole_audience is_timely is_blank
passes = refl

passes_later : check_assertion jose config (at 250) spiffe_1 "client" ≡ ok verified
unfolding check_assertion check_token signed_claims check_claims effective_lifetime has_uri
    extract_and_verify_chain alg_matches_leaf_key is_sole_audience is_timely is_blank
passes_later = refl

check_assertion-Vouched_example : Vouched jose config (at 200) spiffe_1 "client" verified
check_assertion-Vouched_example =
    check_assertion-Vouched jose config (at 200) spiffe_1 "client" verified passes

abbrev seen_db : Db
seen_db = (verify_client_assertion jose config (at 200) spiffe_1 "client" one_device).1

accepted :
    verify_client_assertion jose config (at 200) spiffe_1 "client" one_device
    ≡ (ok verified, seen_db)
unfolding verify_client_assertion check_assertion check_token signed_claims check_claims
    effective_lifetime has_uri extract_and_verify_chain alg_matches_leaf_key is_sole_audience
    is_timely is_blank witness remember_jti
accepted = refl

-- A request for another jti in between
abbrev between : List WitnessCall
between = record { now = at 210; jti = "jti-2"; expires_at = at 400 } ∷ []

verify_client_assertion_once_example :
    verify_client_assertion jose config (at 250) spiffe_1 "client" (witness_all between seen_db)
    ≡ (err AssertionErr.replayed, witness_all between seen_db)
verify_client_assertion_once_example =
    verify_client_assertion_once jose jose config config (at 200) (at 250) spiffe_1 "client"
      spiffe_1 "client" verified verified between one_device seen_db accepted passes_later refl
      (omega arith, tt) (omega arith)

verify_client_assertion-last_instant_example :
    (verify_client_assertion jose config (at 330) spiffe_1 "client" (witness_all between seen_db)).0
    ≡ ok verified
verify_client_assertion-last_instant_example =
    verify_client_assertion-last_instant jose config (at 200) spiffe_1 "client" verified between
      one_device seen_db accepted (omega arith, tt)

abbrev factory_config : FactoryJwtConfig
factory_config = record {
  roots = [];
  audience = "https://mis.example.com/api/v1/identities";
  clock_skew = 30 * second;
  max_assertion_lifetime = 300 * second;
}

abbrev credential : Credential
credential = record { method = "jwt"; proof = some (record { assertion = "factory"; token = "" }) }

abbrev factory_assertion : FactoryAssertion
factory_assertion = record { leaf = leaf; jti = "jti-1"; expiry = at 300 }

proves :
    check_factory_assertion platform jose factory_config (at 200) credential ≡ ok factory_assertion
unfolding check_factory_assertion check_factory_header check_factory_claims hex_fingerprint
    extract_and_verify_chain alg_matches_leaf_key is_sole_audience is_timely is_blank
proves = refl

proves_later :
    check_factory_assertion platform jose factory_config (at 250) credential ≡ ok factory_assertion
unfolding check_factory_assertion check_factory_header check_factory_claims hex_fingerprint
    extract_and_verify_chain alg_matches_leaf_key is_sole_audience is_timely is_blank
proves_later = refl

abbrev device : VerifiedBootstrap
device = record { method = "jwt"; esi = "sha256:leaf-a" }

abbrev proven_db : Db
proven_db =
    (validate_factory_assertion platform jose factory_config (at 200) credential one_device).1

proven :
    validate_factory_assertion platform jose factory_config (at 200) credential one_device
    ≡ (ok device, proven_db)
unfolding validate_factory_assertion check_factory_assertion check_factory_header
    check_factory_claims hex_fingerprint extract_and_verify_chain alg_matches_leaf_key
    is_sole_audience is_timely is_blank witness remember_jti
proven = refl

check_factory_assertion-Proven_example :
    Proven platform jose factory_config (at 200) credential factory_assertion
check_factory_assertion-Proven_example =
    check_factory_assertion-Proven platform jose factory_config (at 200) credential
      factory_assertion proves

validate_factory_assertion_once_example :
    validate_factory_assertion platform jose factory_config
      (at 250)
      credential
      (witness_all between proven_db)
    ≡ (err FactoryJwtErr.replayed, witness_all between proven_db)
validate_factory_assertion_once_example =
    validate_factory_assertion_once platform jose jose factory_config factory_config (at 200)
      (at 250) credential credential device factory_assertion factory_assertion between one_device
      proven_db proven proves proves_later refl (omega arith, tt) (omega arith)
