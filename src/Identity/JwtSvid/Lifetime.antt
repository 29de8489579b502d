-- ===== src/Identity/JwtSvid/Lifetime.antt =====
-- IssueJWTSVID of identity/jwtsvid.go: the lifetime and the audit.
use specification_enhancemen.Prelude.{
  ℕ, ◌+◌, ◌≤◌, ◌<◌, String, true, Option, List, ◌≡◌, arith, ok, any, ◌==◌, any-append, str_eq_refl,
  Bool-cases, inl, inr, refl,
}
use specification_enhancemen.Instant.{Instant}
use specification_enhancemen.Store.{IssuedJwtSvid, Db}
use specification_enhancemen.Store.JwtReplay.{record_jwt_svid}
use specification_enhancemen.Identity.JwtSvid.{
  Claims, JwtSvidConfig, JwtSvidResult, effective_ttl, issue_jwt_svid,
}

-- The effective TTL is positive, at most the maximum, and the requested one wherever that is allowed.
effective_ttl_bounds :
    (cfg : JwtSvidConfig) (requested : ℕ)
    → 0 < cfg.max_ttl
    → (0 < effective_ttl cfg requested) × (effective_ttl cfg requested ≤ cfg.max_ttl)
unfolding effective_ttl
effective_ttl_bounds cfg requested h = ground arith

any-record_jwt_svid :
    (rec : IssuedJwtSvid) (db : Db)
    → any (λ r. r.jti == rec.jti) (record_jwt_svid rec db).issued_jwt_svids ≡ true
unfolding record_jwt_svid
any-record_jwt_svid rec db = elim (Bool-cases (any (λ r. r.jti == rec.jti) db.issued_jwt_svids)) [
  | inl e ↦ rw e e
  | inr e ↦ rw (e, any-append, e, str_eq_refl) refl
]

-- A JWT SVID that IssueJWTSVID hands out expires after the moment of issue and at most MaxTTL later,
-- and its jti is in the audit.
pub issue_jwt_svid_lifetime :
    (sign : Claims → Option String) (now : Instant) (jti : String) (cfg : JwtSvidConfig)
    (spiffe_id : String) (audiences : List String) (requested : ℕ) (db : Db) (res : JwtSvidResult)
    (db' : Db)
    → issue_jwt_svid sign now jti cfg spiffe_id audiences requested db ≡ (ok res, db')
    → (now < res.expires_at)
      × (res.expires_at ≤ now + cfg.max_ttl)
      × (any (λ r. r.jti == jti) db'.issued_jwt_svids ≡ true)
unfolding issue_jwt_svid
issue_jwt_svid_lifetime sign now jti cfg spiffe_id audiences requested db res db' h =
    let positive : 0 < cfg.max_ttl = ground arith in
    let expiry : res.expires_at ≡ now + effective_ttl cfg requested = ground arith in
    let bounds = effective_ttl_bounds cfg requested positive in
    let rec : IssuedJwtSvid = record {
      jti = jti;
      spiffe_id = spiffe_id;
      audiences = audiences;
      issued_at = now;
      expires_at = now + effective_ttl cfg requested;
    } in
    let audited : db' ≡ record_jwt_svid rec db = ground arith in
    (omega arith, omega arith, rw audited (any-record_jwt_svid rec db))
