-- ===== src/Examples/Identities.antt =====
-- Instances of the theorems on the identity service, at a device that enrolls again with a new key.
use specification_enhancemen.Prelude.{
  String, true, Option, none, some, [], ◌∷◌, ◌≡◌, ◌≢◌, ◌==◌, refl, arith, ok, err, any,
}
use specification_enhancemen.Errors.{Err}
use specification_enhancemen.Store.{Ldi, LdiStatus, TokenStatus, Db}
use specification_enhancemen.Store.Identities.{
  lookup_by_esi, get_ldi, get_ldi_by_spiffe_id, rebind, insert_binding,
}
use specification_enhancemen.Store.Identities.Consistency.{IsConsistent}
use specification_enhancemen.Store.ReplacementTickets.{validate_ticket}
use specification_enhancemen.Store.IssuedSvids.{
  record_svid, is_outstanding, active_by_spiffe_id, mark_revoked, leaf_by_active_spiffe_id,
}
use specification_enhancemen.Store.RevokedSvids.{revoke}
use specification_enhancemen.Instant.{text_lt}
use specification_enhancemen.Identity.{
  ReplacementAuthorization, VerifiedBootstrap, operator_ticket_method, validate_replacement,
  is_active, EnrollmentResult, record_issuance, issue_and_record, revoke_active_priors,
  renewal_key_changed, check_rotation,
}
use specification_enhancemen.Identity.Issuing.{IsSole}
use specification_enhancemen.Identity.Enrollment.{handle_re_enrollment, handle_replacement, enroll}
use specification_enhancemen.Identity.Enrollment.Effects.{enroll-IsSole, enroll-spends_ticket}
use specification_enhancemen.Identity.Enrollment.Consistency.{enroll-IsConsistent}
use specification_enhancemen.Identity.Enrollment.Binding.{binds, enroll-binds}
use specification_enhancemen.Identity.Renewal.{renew}
use specification_enhancemen.Identity.Renewal.Rotation.{renew-IsSole}
use specification_enhancemen.Identity.JwtSvid.{Claims, JwtSvidConfig, JwtSvidResult, issue_jwt_svid}
use specification_enhancemen.Identity.Revocation.{Revoked, revoke_spiffe_id}
use specification_enhancemen.Identity.Revocation.Effective.{IsRevoked, revoke_spiffe_id-effective}
use specification_enhancemen.Examples.{
  at, service, call, csr_b, factory_device, spiffe_1, ldi_1, binding_1, svid_a, one_device,
}

abbrev again : EnrollmentResult
again = record {
  status_code = 200;
  ldi = ldi_1;
  cert_chain_der = "leaf-b" ∷ "intermediate" ∷ [];
  expires_at = at 1000;
}

abbrev after_again : Db
after_again = (enroll service call factory_device csr_b none one_device).1

enrolled_again : enroll service call factory_device csr_b none one_device ≡ (ok again, after_again)
unfolding enroll lookup_by_esi handle_re_enrollment leaf_by_active_spiffe_id is_outstanding text_lt
    check_rotation renewal_key_changed issue_and_record record_issuance record_svid
    revoke_active_priors active_by_spiffe_id revoke mark_revoked
enrolled_again = refl

enroll-IsSole_example : IsSole spiffe_1 (at 200) again after_again
enroll-IsSole_example =
    enroll-IsSole service call factory_device csr_b none one_device again after_again enrolled_again
      refl

known_device : get_ldi_by_spiffe_id spiffe_1 one_device ≡ ok ldi_1
unfolding get_ldi_by_spiffe_id
known_device = refl

revoke_spiffe_id-effective_example :
    (rev : Revoked) × (db' : Db) × (revoke_spiffe_id (at 200) spiffe_1 "lost" one_device
      ≡ (ok rev, db'))
    × IsRevoked (at 200) spiffe_1 ldi_1 one_device rev db'
revoke_spiffe_id-effective_example =
    revoke_spiffe_id-effective (at 200) spiffe_1 "lost" ldi_1 one_device known_device

consistent : IsConsistent one_device
consistent = record {
  uuids = (refl, tt);
  spiffe_ids = (refl, tt);
  esis = (refl, tt);
  one_bound = (refl, tt);
  owned = (refl, tt);
}

enroll-IsConsistent_example :
    IsConsistent (enroll service call factory_device csr_b none one_device).1
enroll-IsConsistent_example =
    enroll-IsConsistent service call factory_device csr_b none one_device consistent

enroll-binds_example :
    (any (binds "esi-1" ldi_1) after_again.esi_bindings ≡ true) × (is_active ldi_1.status ≡ true)
enroll-binds_example =
    enroll-binds service call factory_device csr_b none one_device again after_again enrolled_again

-- A spare device that takes over with a ticket
abbrev with_ticket : Db
with_ticket = record one_device {
  replacement_tickets =
      record {
        ticket_hash = "sha256:margo-rt-v1.abc";
        ldi_uuid = "uuid-1";
        status = TokenStatus.active;
        expires_at = at 300;
        created_at = at 150;
        consumed_at = none;
      }
      ∷ [];
}

abbrev ticket : ReplacementAuthorization
ticket = record { method = operator_ticket_method; ticket = "margo-rt-v1.abc" }

abbrev spare_device : VerifiedBootstrap
spare_device = record { method = "factory"; esi = "esi-2" }

ticket_spent :
    (enroll service call spare_device csr_b (some ticket) with_ticket).1.replacement_tickets
    ≢ with_ticket.replacement_tickets
unfolding enroll lookup_by_esi handle_replacement validate_replacement validate_ticket get_ldi
    rebind insert_binding revoke_active_priors active_by_spiffe_id is_outstanding text_lt revoke
    mark_revoked issue_and_record record_issuance record_svid
ticket_spent e = ground arith

enroll-spends_ticket_example :
    (lookup_by_esi "esi-2" with_ticket ≡ err Err.not_found)
    × ((r : ReplacementAuthorization) × (some ticket ≡ some r)
        × ((r.method == operator_ticket_method) ≡ true)
        × (u : String) × ((validate_replacement service.replacement service.platform.sha256 r.ticket
              (at 200)
              with_ticket).0
            ≡ ok u))
enroll-spends_ticket_example =
    enroll-spends_ticket service call spare_device csr_b (some ticket) with_ticket ticket_spent

-- The device after its LDI has been revoked
abbrev revoked_ldi : Ldi
revoked_ldi = record ldi_1 { status = LdiStatus.revoked }

abbrev jwt_config : JwtSvidConfig
jwt_config = record { issuer = "https://mis"; default_ttl = at 60; max_ttl = at 300 }

abbrev sign_any : Claims → Option String
sign_any claims = some "jwt"

-- The same with the ticket, and after it has been spent
abbrev revoked_with_ticket : Db
revoked_with_ticket = record with_ticket { ldis = revoked_ldi ∷ [] }

abbrev revoked_spent : Db
revoked_spent =
    (validate_replacement service.replacement service.platform.sha256 "margo-rt-v1.abc" (at 200)
      revoked_with_ticket).1

newest_leaf : leaf_by_active_spiffe_id spiffe_1 (at 200) one_device ≡ ok svid_a
unfolding leaf_by_active_spiffe_id is_outstanding text_lt
newest_leaf = refl

other_key : renewal_key_changed service.platform "leaf-a" csr_b ≡ ok true
unfolding renewal_key_changed
other_key = refl

known_binding : lookup_by_esi "esi-1" one_device ≡ ok (binding_1, ldi_1)
unfolding lookup_by_esi
known_binding = refl

abbrev after_renewal : Db
after_renewal = (renew service call spiffe_1 csr_b one_device).1

renewed : renew service call spiffe_1 csr_b one_device ≡ (ok again, after_renewal)
unfolding renew get_ldi_by_spiffe_id leaf_by_active_spiffe_id is_outstanding text_lt check_rotation
    renewal_key_changed issue_and_record record_issuance record_svid revoke_active_priors
    active_by_spiffe_id revoke mark_revoked
renewed = refl

renew-IsSole_example : IsSole spiffe_1 (at 200) again after_renewal
renew-IsSole_example =
    renew-IsSole service call csr_b ldi_1 svid_a one_device again after_renewal known_device
      newest_leaf other_key renewed

abbrev jwt_result : JwtSvidResult
jwt_result = record { jwt = "jwt"; expires_at = at 260 }

abbrev after_jwt : Db
after_jwt =
    (issue_jwt_svid sign_any (at 200) "uuid-2" jwt_config spiffe_1 ("aud" ∷ []) (at 60)
      one_device).1

jwt_issued :
    issue_jwt_svid sign_any (at 200) "uuid-2" jwt_config spiffe_1 ("aud" ∷ []) (at 60) one_device
    ≡ (ok jwt_result, after_jwt)
unfolding issue_jwt_svid get_ldi_by_spiffe_id
jwt_issued = refl
