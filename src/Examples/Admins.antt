-- ===== src/Examples/Admins.antt =====
-- Tests of the administrative handlers.
use specification_enhancemen.Prelude.{some, ◌≡◌, refl}
use specification_enhancemen.Store.EnrollmentTokens.{create_token}
use specification_enhancemen.Store.ReplacementTickets.{create_ticket}
use specification_enhancemen.Bootstrap.Secrets.{wire}
use specification_enhancemen.Transport.Renewal.{trim_right}
use specification_enhancemen.Transport.Admin.{
  base, create_enrollment_token, token_created, create_replacement_ticket, ticket_created,
  create_revocation, refused,
}
use specification_enhancemen.Identity.Revocation.{revoke_spiffe_id}
use specification_enhancemen.Store.Identities.{get_ldi_by_spiffe_id}
use specification_enhancemen.Examples.{at, platform, secret_1, empty_db, one_device, spiffe_1}

base_test : base spiffe_1 ≡ "uuid-1"
unfolding base trim_right
base_test = refl

base_slashes_test : base "a/b//" ≡ "b"
unfolding base trim_right
base_slashes_test = refl

base_root_test : base "//" ≡ "/"
unfolding base trim_right
base_root_test = refl

create_enrollment_token_test :
    (create_enrollment_token platform
      (λ _. some (at 60))
      0
      (at 100)
      "token-1"
      secret_1
      (some "1m")
      empty_db).0
    ≡ token_created "token-1" "margo-et-v1.secret-1" (at 160)
unfolding create_enrollment_token create_token wire
create_enrollment_token_test = refl

-- Only the last part of the SPIFFE ID counts.
create_replacement_ticket_test :
    (create_replacement_ticket platform.sha256
      (λ _. some (at 60))
      (at 100)
      "draw"
      (some (record { spiffe_id = "spiffe://other.example/uuid-1"; ttl = "1m" }))
      one_device).0
    ≡ ticket_created "margo-rt-v1.draw" "spiffe://other.example/uuid-1" (at 160)
unfolding create_replacement_ticket create_ticket trim_right
create_replacement_ticket_test = refl

create_revocation_test :
    (create_revocation (at 100) (some (record { spiffe_id = spiffe_1; reason = "" })) empty_db).0
    ≡ refused 404
unfolding create_revocation revoke_spiffe_id get_ldi_by_spiffe_id
create_revocation_test = refl
