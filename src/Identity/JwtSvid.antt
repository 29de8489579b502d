-- ===== src/Identity/JwtSvid.antt =====
-- completed/miaf-poc/pkg/mis/identity/jwtsvid.go: IssueJWTSVID.
pub mod Lifetime
use specification_enhancemen.Prelude.{
  ℕ, ◌+◌, ◌==◌, ◌||◌, not, Option, none, some, Result, ok, err, if◌then◌else◌, String, List, eqb,
  ltb,
}
use specification_enhancemen.Instant.{Instant}
use specification_enhancemen.Errors.{Err}
use specification_enhancemen.Store.{Db}
use specification_enhancemen.Store.Identities.{get_ldi_by_spiffe_id}
use specification_enhancemen.Store.JwtReplay.{record_jwt_svid}
use specification_enhancemen.Identity.{is_active}

-- JWTSVIDConfig; a TTL that is not positive counts as 0.
pub record JwtSvidConfig : Type 0 where
  pub issuer : String
  pub default_ttl : ℕ
  pub max_ttl : ℕ

-- The jwt.Claims that are signed, with the instants that jwt.NewNumericDate is given
pub record Claims : Type 0 where
  pub issuer : String
  pub subject : String
  pub audience : List String
  pub issued_at : Instant
  pub expiry : Instant
  pub id : String

pub record JwtSvidResult : Type 0 where
  pub jwt : String
  pub expires_at : Instant

-- The default, once `cfg.DefaultTTL <= 0 || cfg.DefaultTTL > cfg.MaxTTL` has been mended
unfoldable pub effective_default : JwtSvidConfig → ℕ
effective_default cfg =
    if eqb cfg.default_ttl 0 || ltb cfg.max_ttl cfg.default_ttl
    then cfg.max_ttl
    else cfg.default_ttl

-- The TTL of this request, capped
unfoldable pub effective_ttl : JwtSvidConfig → ℕ → ℕ
unfolding effective_default
effective_ttl cfg requested =
    let ttl = if eqb requested 0 then effective_default cfg else requested in
    if ltb cfg.max_ttl ttl then cfg.max_ttl else ttl

-- IssueJWTSVID; `sign` is the signer's answer in this call and `jti` is what uuid.NewString draws.
-- The error of the audit is dropped.
unfoldable pub issue_jwt_svid :
    (Claims → Option String)
    → Instant
    → String
    → JwtSvidConfig
    → String
    → List String
    → ℕ
    → Db
    → Result Err JwtSvidResult × Db
unfolding effective_ttl
issue_jwt_svid sign now jti cfg spiffe_id audiences requested db =
    if cfg.issuer == ""
    then (err Err.bad_argument, db)
    else if eqb cfg.max_ttl 0
    then (err Err.bad_argument, db)
    else elim (get_ldi_by_spiffe_id spiffe_id db) [
      | err e ↦ (err e, db)
      | ok ldi ↦
          let exp = now + effective_ttl cfg requested in
          let signed : Option String = sign (record {
            issuer = cfg.issuer;
            subject = spiffe_id;
            audience = audiences;
            issued_at = now;
            expiry = exp;
            id = jti;
          }) in
          if not (is_active ldi.status) then (err Err.not_found, db) else elim signed [
            | none ↦ (err Err.signing_failed, db)
            | some compact ↦ (
              ok (record { jwt = compact; expires_at = exp }),
              record_jwt_svid
                  (record {
                    jti = jti;
                    spiffe_id = spiffe_id;
                    audiences = audiences;
                    issued_at = now;
                    expires_at = exp;
                  })
                  db,
            )
          ]
    ]
