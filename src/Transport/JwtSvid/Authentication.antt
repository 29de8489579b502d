-- ===== src/Transport/JwtSvid/Authentication.antt =====
-- handleJWTSVID of transport/http/jwtsvid.go: whom it believes.
use specification_enhancemen.Prelude.{
  ◌+◌, String, true, ◌==◌, [], none, some, List, ◌∷◌, ◌≡◌, refl, arith, ok, Result-cases,
  Option-cases, inl, inr, ap, ◌∙◌, str_eq→≡,
}
use specification_enhancemen.Instant.{Instant}
use specification_enhancemen.Platform.{Certificate}
use specification_enhancemen.Store.{IssuedJwtSvid, Db}
use specification_enhancemen.Store.JwtReplay.{witness, record_jwt_svid}
use specification_enhancemen.JwtExchange.{VerifiedClientAssertion, verify_client_assertion}
use specification_enhancemen.JwtExchange.Once.{verify_client_assertion-ok}
use specification_enhancemen.Transport.JwtSvid.{
  JwtSvidHandlerConfig, ExchangeRequest, JwtSvidRequest, assertion_config, authenticate,
}

-- The tables that decide on an issue are the same.
pub record SameLdis (db db' : Db) : Type 0 where
  pub ldis : db'.ldis ≡ db.ldis
  pub renewal_events : db'.renewal_events ≡ db.renewal_events

pub witness-SameLdis :
    (now : Instant) (jti : String) (expires_at : Instant) (db : Db)
    → SameLdis db (witness now jti expires_at db).1
unfolding witness
witness-SameLdis now jti expires_at db = record {
  ldis = ground arith;
  renewal_events = ground arith;
}

pub record_jwt_svid-SameLdis :
    (rec : IssuedJwtSvid) (db : Db) → SameLdis db (record_jwt_svid rec db)
unfolding record_jwt_svid
record_jwt_svid-SameLdis rec db = record { ldis = ground arith; renewal_events = ground arith }

-- The request proves that it comes from the SPIFFE ID: by its client certificate, or by an assertion
-- that has been verified against the trust anchors.
pub data Authenticated (cfg : JwtSvidHandlerConfig) (now : Instant) (req : JwtSvidRequest)
    (body : ExchangeRequest) (spiffe_id : String) (db : Db) : Type 0 where
  by_certificate :
      (more : List String)
      → req.peer_uris ≡ some (spiffe_id ∷ more)
      → Authenticated cfg now req body spiffe_id db
  by_assertion :
      (roots : List Certificate) (v : VerifiedClientAssertion) (db₁ : Db)
      → cfg.anchors ≡ some roots
      → verify_client_assertion cfg.jose
          (assertion_config cfg roots req.spiffe_id_encoded)
          now
          spiffe_id
          body.client_assertion
          db
        ≡ (ok v, db₁)
      → Authenticated cfg now req body spiffe_id db

authenticate-by_certificate :
    (cfg : JwtSvidHandlerConfig) (now : Instant) (req : JwtSvidRequest) (body : ExchangeRequest)
    (spiffe_id : String) (db db₁ : Db) (uris : List String)
    → req.peer_uris ≡ some uris
    → authenticate cfg now req body spiffe_id db ≡ (none, db₁)
    → ((more : List String) × (uris ≡ spiffe_id ∷ more)) × (db₁ ≡ db)
unfolding authenticate
authenticate-by_certificate cfg now req body spiffe_id db db₁ [] e h = absurd (ground arith)
authenticate-by_certificate cfg now req body spiffe_id db db₁ (uri ∷ more) e h =
    let same : (uri == spiffe_id) ≡ true = ground arith in
    ((more, ap (λ x. x ∷ more) (str_eq→≡ uri spiffe_id same)), ground arith)

same-SameLdis : (db db₁ : Db) → db₁ ≡ db → SameLdis db db₁
same-SameLdis db db₁ e = record { ldis = rw e refl; renewal_events = rw e refl }

pub authenticate-Authenticated :
    (cfg : JwtSvidHandlerConfig) (now : Instant) (req : JwtSvidRequest) (body : ExchangeRequest)
    (spiffe_id : String) (db db₁ : Db)
    → authenticate cfg now req body spiffe_id db ≡ (none, db₁)
    → Authenticated cfg now req body spiffe_id db × SameLdis db db₁
unfolding authenticate
authenticate-Authenticated cfg now req body spiffe_id db db₁ h = elim (Option-cases req.peer_uris) [
  | inr (uris, e) ↦
      let ((more, first), kept) =
        authenticate-by_certificate cfg now req body spiffe_id db db₁ uris e h in
      (by_certificate more (e ∙ ap some first), same-SameLdis db db₁ kept)
  | inl e ↦ elim (Option-cases cfg.anchors) [
    | inl f ↦ absurd (ground arith)
    | inr (roots, f) ↦
        elim (Result-cases
          (verify_client_assertion cfg.jose (assertion_config cfg roots req.spiffe_id_encoded) now
            spiffe_id body.client_assertion db).0) [
              | inr (x, g) ↦ absurd (ground arith)
              | inl (v, g) ↦
                  let vc = assertion_config cfg roots req.spiffe_id_encoded in
                  let verified : verify_client_assertion cfg.jose vc now spiffe_id
                        body.client_assertion db
                      ≡ (ok v, db₁) =
                    ground arith in
                  let (_, seen) =
                    verify_client_assertion-ok cfg.jose vc now spiffe_id body.client_assertion v db
                      db₁ verified in
                  let until = v.expiry + vc.clock_skew in
                  let stored : db₁ ≡ (witness now v.jti until db).1 = rw seen refl in
                  (
                    by_assertion roots v db₁ f verified,
                    rw stored (witness-SameLdis now v.jti until db),
                  )
            ]
  ]
]
