-- ===== src/Transport/JwtSvid/Exchange.antt =====
-- handleJWTSVID of transport/http/jwtsvid.go: whom it serves.
use text.Mathlib.Text.{starts_with}
use specification_enhancemen.Prelude.{
  ℕ, ◌+◌, ◌<◌, ◌≤◌, String, true, false, Option, some, List, ◌≡◌, refl, arith, ok, Result-cases,
  Option-cases, inl, inr, ◌⊎◌,
}
use specification_enhancemen.Instant.{Instant}
use specification_enhancemen.Platform.{Platform}
use specification_enhancemen.Store.{Ldi, IssuedJwtSvid, Db}
use specification_enhancemen.Store.Identities.{get_ldi_by_spiffe_id}
use specification_enhancemen.Store.JwtReplay.{record_jwt_svid}
use specification_enhancemen.Store.RenewalEvents.{allow, record_renewal}
use specification_enhancemen.Store.RenewalEvents.Budget.{used, used-record_renewal}
use specification_enhancemen.Identity.{is_active}
use specification_enhancemen.Identity.JwtSvid.{
  Claims, JwtSvidConfig, effective_ttl, JwtSvidResult, issue_jwt_svid,
}
use specification_enhancemen.Identity.JwtSvid.Lifetime.{issue_jwt_svid_lifetime}
use specification_enhancemen.JwtExchange.{validate_audience}
use specification_enhancemen.Transport.Renewal.{decode_spiffe_id_encoded}
use specification_enhancemen.Transport.Renewal.Admission.{counted-within}
use specification_enhancemen.Transport.JwtSvid.Authentication.{
  SameLdis, record_jwt_svid-SameLdis, Authenticated, authenticate-Authenticated,
}
use specification_enhancemen.Transport.JwtSvid.{
  JwtSvidHandlerConfig, ExchangeRequest, JwtSvidRequest, Body, unreadable, no_json, decoded, issued,
  issue_config, authenticate, seconds_duration, issue_limited, exchange, handle_jwt_svid,
}

Body-cases :
    (b : Body) → ((r : ExchangeRequest) × (b ≡ decoded r)) ⊎ ((b ≡ unreadable) ⊎ (b ≡ no_json))
Body-cases unreadable = inr (inl refl)
Body-cases no_json = inr (inr refl)
Body-cases (decoded r) = inl (r, refl)

-- What a granted exchange went through
pub record Granted (cfg : JwtSvidHandlerConfig) (now : Instant) (spiffe_id : String)
    (res : JwtSvidResult) (db db' : Db) : Type 0 where
  pub ldi : Ldi
  pub found : get_ldi_by_spiffe_id spiffe_id db ≡ ok ldi
  pub is_live : is_active ldi.status ≡ true
  pub room : used cfg.limit spiffe_id now db < cfg.limit.max_in_window
  pub fits : used cfg.limit spiffe_id now db' ≤ cfg.limit.max_in_window
  pub starts : now < res.expires_at
  pub ends : res.expires_at ≤ now + cfg.max_ttl

issue_jwt_svid-ok :
    (sign : Claims → Option String) (now : Instant) (jti : String) (cfg : JwtSvidConfig)
    (spiffe_id : String) (aud : List String) (requested : ℕ) (db : Db) (res : JwtSvidResult)
    (db₁ : Db)
    → issue_jwt_svid sign now jti cfg spiffe_id aud requested db ≡ (ok res, db₁)
    → ((l : Ldi) × (get_ldi_by_spiffe_id spiffe_id db ≡ ok l) × (is_active l.status ≡ true))
      × SameLdis db db₁
unfolding issue_jwt_svid
issue_jwt_svid-ok sign now jti cfg spiffe_id aud requested db res db₁ h =
    elim (Result-cases (get_ldi_by_spiffe_id spiffe_id db)) [
      | inr (x, e) ↦ absurd (ground arith)
      | inl (l, e) ↦
          let rec : IssuedJwtSvid = record {
            jti = jti;
            spiffe_id = spiffe_id;
            audiences = aud;
            issued_at = now;
            expires_at = now + effective_ttl cfg requested;
          } in
          let audited : db₁ ≡ record_jwt_svid rec db = ground arith in
          ((l, e, ground arith), rw audited (record_jwt_svid-SameLdis rec db))
    ]

used-same :
    (cfg : JwtSvidHandlerConfig) (spiffe_id : String) (now : Instant) (db db₁ : Db)
    → SameLdis db db₁
    → used cfg.limit spiffe_id now db₁ ≡ used cfg.limit spiffe_id now db
used-same cfg spiffe_id now db db₁ same = rw (same.renewal_events) refl

issue_limited-Granted :
    (cfg : JwtSvidHandlerConfig) (sign : Claims → Option String) (now : Instant)
    (jti spiffe_id : String) (aud : List String) (ttl : ℕ) (res : JwtSvidResult) (db db' : Db)
    → issue_limited cfg sign now jti aud ttl spiffe_id db ≡ (issued res, db')
    → Granted cfg now spiffe_id res db db'
unfolding issue_limited allow
issue_limited-Granted cfg sign now jti spiffe_id aud ttl res db db' h =
    let run =
      issue_jwt_svid sign now jti (issue_config cfg) spiffe_id aud (seconds_duration ttl) db in
    elim (Result-cases run.0) [
      | inr (x, e) ↦ absurd (ground arith)
      | inl (r, e) ↦
          let made : run ≡ (ok res, run.1) = ground arith in
          let counted : db' ≡ record_renewal cfg.limit spiffe_id now run.1 = ground arith in
          let ((l, found, live), same) =
            issue_jwt_svid-ok sign now jti (issue_config cfg) spiffe_id aud _ db res run.1 made in
          let (starts, ends, _) =
            issue_jwt_svid_lifetime sign now jti (issue_config cfg) spiffe_id aud _ db res run.1
              made in
          let room : used cfg.limit spiffe_id now db < cfg.limit.max_in_window = ground arith in
          let within = used-record_renewal cfg.limit spiffe_id spiffe_id now run.1 in
          record {
            ldi = l;
            found = found;
            is_live = live;
            room = room;
            fits =
                rw counted
                  (counted-within _ _ _ _ (used-same cfg spiffe_id now db run.1 same) room within);
            starts = starts;
            ends = ends;
          }
    ]

-- A JWT SVID is handed out only for the SPIFFE ID that the path names and that the client certificate
-- or a verified client assertion proves, without a bearer token, for a valid audience, to an LDI that
-- is active, while the limit on renewals is not reached; it lives at most MaxTTL, and what counts
-- afterwards is within the limit.
pub handle_jwt_svid-issued :
    (p : Platform) (cfg : JwtSvidHandlerConfig) (sign : Claims → Option String) (now : Instant)
    (jti : String) (req : JwtSvidRequest) (res : JwtSvidResult) (db db' : Db)
    → handle_jwt_svid p cfg sign now jti req db ≡ (issued res, db')
    → (spiffe_id : String) × (body : ExchangeRequest) × (db₁ : Db) × (decode_spiffe_id_encoded p
          req.spiffe_id_encoded
        ≡ some spiffe_id)
      × (starts_with req.authorization "Bearer " ≡ false)
      × (req.body ≡ decoded body)
      × (validate_audience cfg.is_url body.audience ≡ true)
      × Authenticated cfg now req body spiffe_id db
      × SameLdis db db₁
      × Granted cfg now spiffe_id res db₁ db'
unfolding handle_jwt_svid exchange
handle_jwt_svid-issued p cfg sign now jti req res db db' h =
    elim (Option-cases (decode_spiffe_id_encoded p req.spiffe_id_encoded)) [
      | inl e ↦ absurd (ground arith)
      | inr (spiffe_id, e) ↦ elim (Body-cases req.body) [
        | inr f ↦ absurd (ground arith)
        | inl (body, f) ↦ elim (Option-cases body.ttl_seconds) [
          | inl g ↦ absurd (ground arith)
          | inr (ttl, g) ↦ elim (Option-cases (authenticate cfg now req body spiffe_id db).0) [
            | inr (x, k) ↦ absurd (ground arith)
            | inl k ↦
                let db₁ = (authenticate cfg now req body spiffe_id db).1 in
                let (who, same) =
                  authenticate-Authenticated cfg now req body spiffe_id db db₁ (ground arith) in
                let served : issue_limited cfg sign now jti body.audience ttl spiffe_id db₁
                    ≡ (issued res, db') =
                  ground arith in
                (
                  spiffe_id,
                  body,
                  db₁,
                  e,
                  ground arith,
                  f,
                  ground arith,
                  who,
                  same,
                  issue_limited-Granted cfg sign now jti spiffe_id body.audience ttl res db₁ db'
                      served,
                )
          ]
        ]
      ]
    ]
