-- ===== src/Examples/Exchanges.antt =====
-- Instances of the theorems on the exchange of a client assertion for a JWT SVID.
use text.Mathlib.Text.{starts_with}
use specification_enhancemen.Prelude.{String, ◌*◌, ◌≡◌, refl, true, false, none, some, [], ◌∷◌}
use specification_enhancemen.Instant.{second}
use specification_enhancemen.Store.{Db}
use specification_enhancemen.Store.Identities.{get_ldi_by_spiffe_id}
use specification_enhancemen.Store.JwtReplay.{witness}
use specification_enhancemen.Store.RenewalEvents.{allow}
use specification_enhancemen.Identity.JwtSvid.{JwtSvidResult, issue_jwt_svid}
use specification_enhancemen.Jose.{
  extract_and_verify_chain, alg_matches_leaf_key, is_sole_audience, is_timely,
}
use specification_enhancemen.JwtExchange.{validate_audience, verify_client_assertion}
use specification_enhancemen.Bootstrap.Secrets.{is_blank}
use specification_enhancemen.Transport.Renewal.{decode_spiffe_id_encoded}
use specification_enhancemen.Transport.JwtSvid.{
  JwtSvidHandlerConfig, ExchangeRequest, JwtSvidRequest, decoded, issued, assertion_config,
  exchange, handle_jwt_svid,
}
use specification_enhancemen.Transport.JwtSvid.Authentication.{SameLdis, Authenticated}
use specification_enhancemen.Transport.JwtSvid.Exchange.{Granted, handle_jwt_svid-issued}
use specification_enhancemen.Examples.{at, platform, one_device}
use specification_enhancemen.Examples.Assertions.{jose}

abbrev handler : JwtSvidHandlerConfig
handler = record {
  jose = jose;
  is_url = λ _. true;
  anchors = some [];
  has_replay_store = true;
  limit = record { max_in_window = 3; window = 3600 * second };
  issuer_url = "https://mis.example.com";
  endpoint_base = "https://mis.example.com/";
  max_ttl = 3600 * second;
  default_ttl = 0;
  clock_skew = 30 * second;
}

abbrev body : ExchangeRequest
body = record {
  audience = "https://dfm.example.com/" ∷ [];
  ttl_seconds = some 300;
  client_assertion = "client";
}

abbrev request : JwtSvidRequest
request = record {
  spiffe_id_encoded = "id-1";
  peer_uris = none;
  authorization = "";
  body = decoded body;
}

abbrev after_db : Db
after_db =
    (handle_jwt_svid platform handler (λ _. some "jwt") (at 200) "uuid-2" request one_device).1

abbrev answer : JwtSvidResult
answer = record { jwt = "jwt"; expires_at = at 500 }

exchanged :
    handle_jwt_svid platform handler (λ _. some "jwt") (at 200) "uuid-2" request one_device
    ≡ (issued answer, after_db)
unfolding handle_jwt_svid exchange decode_spiffe_id_encoded validate_audience is_blank
    verify_client_assertion assertion_config extract_and_verify_chain alg_matches_leaf_key
    is_sole_audience is_timely witness allow issue_jwt_svid get_ldi_by_spiffe_id
exchanged = refl

handle_jwt_svid-issued_example :
    (spiffe_id : String) × (b : ExchangeRequest) × (db₁ : Db) × (decode_spiffe_id_encoded platform
        "id-1"
      ≡ some spiffe_id)
    × (starts_with "" "Bearer " ≡ false)
    × (decoded body ≡ decoded b)
    × (validate_audience handler.is_url b.audience ≡ true)
    × Authenticated handler (at 200) request b spiffe_id one_device
    × SameLdis one_device db₁
    × Granted handler (at 200) spiffe_id answer db₁ after_db
handle_jwt_svid-issued_example =
    handle_jwt_svid-issued platform handler (λ _. some "jwt") (at 200) "uuid-2" request answer
      one_device after_db exchanged
