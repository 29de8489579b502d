-- ===== src/Examples/Renewals.antt =====
-- Instances of the theorems on renewals, at a device that renews with a new key or after it has been
-- revoked.
use specification_enhancemen.Prelude.{
  inr, arith, String, ◌<◌, ◌≤◌, ◌*◌, ◌≡◌, refl, true, none, some, [], ◌∷◌, ok, err,
}
use specification_enhancemen.Instant.{second, text_lt}
use specification_enhancemen.Errors.{Err}
use specification_enhancemen.CsrParsing.{parse_csr, contains_ascii}
use specification_enhancemen.Store.{Ldi, Db}
use specification_enhancemen.Store.Identities.{get_ldi_by_spiffe_id, set_ldi_status}
use specification_enhancemen.Store.IssuedSvids.{
  is_outstanding, active_by_spiffe_id, leaf_by_active_spiffe_id, record_svid, mark_revoked,
}
use specification_enhancemen.Store.RevokedSvids.{revoke}
use specification_enhancemen.Store.RenewalEvents.{allow}
use specification_enhancemen.Store.RenewalEvents.Budget.{used}
use specification_enhancemen.Identity.{
  Call, is_active, issue_and_record, record_issuance, renewal_key_changed, check_rotation,
  revoke_active_priors,
}
use specification_enhancemen.Identity.Renewal.{renew}
use specification_enhancemen.Identity.Renewal.FailedIssue.{renew-issuer_failed}
use specification_enhancemen.Identity.Refusals.{IsRefused}
use specification_enhancemen.Identity.JwtSvid.{JwtSvidConfig, issue_jwt_svid}
use specification_enhancemen.Identity.Revocation.{Revoked, revoke_spiffe_id}
use specification_enhancemen.Identity.Revocation.Refused.{revoke_spiffe_id-refuses}
use specification_enhancemen.Bootstrap.{EnrollmentResponse}
use specification_enhancemen.Transport.{enrolled}
use specification_enhancemen.Transport.Enrollment.{svid_profile_uri_x509_v1, enrollment_response}
use specification_enhancemen.Transport.Renewal.{
  RenewalConfig, RenewalRequest, decode_spiffe_id_encoded, is_authenticated, handle_renewal,
}
use specification_enhancemen.Transport.Renewal.Admission.{handle_renewal-enrolled}
use specification_enhancemen.Examples.{
  at, platform, service, call, csr_b, spiffe_1, ldi_1, svid_a, one_device,
}

known : get_ldi_by_spiffe_id spiffe_1 one_device ≡ ok ldi_1
unfolding get_ldi_by_spiffe_id
known = refl

newest : leaf_by_active_spiffe_id spiffe_1 (at 200) one_device ≡ ok svid_a
unfolding leaf_by_active_spiffe_id is_outstanding text_lt
newest = refl

other_key : renewal_key_changed platform "leaf-a" csr_b ≡ ok true
unfolding renewal_key_changed
other_key = refl

abbrev failing_call : Call
failing_call = record call { issue = λ _ _ _. none }

-- A call a minute later
abbrev later_call : Call
later_call = record call { now = at 260 }

renew-issuer_failed_example :
    (db' : Db) × (renew service failing_call spiffe_1 csr_b one_device
      ≡ (err Err.issuer_failed, db'))
    × (active_by_spiffe_id spiffe_1 (at 200) db' ≡ [])
    × (active_by_spiffe_id spiffe_1 (at 260) db' ≡ [])
    × (renew service later_call spiffe_1 csr_b db' ≡ (err Err.not_found, db'))
renew-issuer_failed_example =
    renew-issuer_failed service failing_call later_call csr_b csr_b ldi_1 svid_a one_device refl
      known refl newest other_key refl (inr (omega arith))

abbrev config : RenewalConfig
config = record {
  limit = record { max_in_window = 3; window = 3600 * second };
  bearer = none;
  endpoint_base_url = "https://mis.example.com/";
}

abbrev request : RenewalRequest
request = record {
  spiffe_id_encoded = "id-1";
  peer_uris = some (spiffe_1 ∷ []);
  authorization = "";
  body = some (record {
    svid_profile_uri = svid_profile_uri_x509_v1;
    csr = "csr-b";
    bootstrap_credential = record { method = ""; proof = none };
    replacement_authorization = none;
  });
}

abbrev response : EnrollmentResponse
response = record {
  svid_profile_uri = svid_profile_uri_x509_v1;
  certificate_chain_pem = "pem:leaf-b" ∷ "pem:intermediate" ∷ [];
}

abbrev renewed_db : Db
renewed_db = (handle_renewal service call config request one_device).1

granted :
    handle_renewal service call config request one_device ≡ (enrolled response 200, renewed_db)
unfolding handle_renewal decode_spiffe_id_encoded is_authenticated parse_csr contains_ascii allow
    renew get_ldi_by_spiffe_id leaf_by_active_spiffe_id is_outstanding text_lt check_rotation
    renewal_key_changed issue_and_record record_issuance record_svid revoke_active_priors
    active_by_spiffe_id revoke mark_revoked enrollment_response
granted = refl

handle_renewal-enrolled_example :
    (spiffe_id : String) × (l : Ldi) × (decode_spiffe_id_encoded platform "id-1" ≡ some spiffe_id)
    × (is_authenticated config request spiffe_id ≡ true)
    × (get_ldi_by_spiffe_id spiffe_id one_device ≡ ok l)
    × (is_active l.status ≡ true)
    × (used config.limit spiffe_id (at 200) one_device < 3)
    × (used config.limit spiffe_id (at 200) renewed_db ≤ 3)
handle_renewal-enrolled_example =
    handle_renewal-enrolled service call config request response 200 one_device renewed_db granted

abbrev revoked_db : Db
revoked_db = (revoke_spiffe_id (at 150) spiffe_1 "lost" one_device).1

abbrev revoked : Revoked
revoked = record {
  newly_revoked =
      record {
        serial_hex = "A1";
        fingerprint_hex = "sha256:leaf-a";
        revoked_at = at 150;
        reason = "lost";
        not_after = at 900;
      }
      ∷ [];
  already_revoked = [];
}

revocation : revoke_spiffe_id (at 150) spiffe_1 "lost" one_device ≡ (ok revoked, revoked_db)
unfolding revoke_spiffe_id get_ldi_by_spiffe_id active_by_spiffe_id is_outstanding text_lt revoke
    mark_revoked set_ldi_status
revocation = refl

abbrev jwt_config : JwtSvidConfig
jwt_config = record { issuer = "https://mis.example.com"; default_ttl = 300; max_ttl = 3600 }

revoke_spiffe_id-refuses_example :
    IsRefused revoked_db (renew service call spiffe_1 csr_b revoked_db)
    × IsRefused revoked_db
        (issue_jwt_svid (λ _. none) (at 200) "uuid-2" jwt_config spiffe_1 [] 0 revoked_db)
revoke_spiffe_id-refuses_example =
    revoke_spiffe_id-refuses service call csr_b (at 150) spiffe_1 "lost" ldi_1 (λ _. none)
      jwt_config [] 0 revoked one_device revoked_db known revocation
