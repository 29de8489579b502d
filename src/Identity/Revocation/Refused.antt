-- ===== src/Identity/Revocation/Refused.antt =====
-- Renew and IssueJWTSVID after RevokeSPIFFEID (identity/service.go, identity/jwtsvid.go).
use specification_enhancemen.Prelude.{ℕ, String, Option, List, ◌≡◌, refl, sym, ap, ◌∙◌, Result, ok}
use mathlib.Core.Path.{subst}
use specification_enhancemen.Instant.{Instant}
use specification_enhancemen.Errors.{Err}
use specification_enhancemen.Platform.{Csr}
use specification_enhancemen.Store.{Ldi, LdiStatus, Db}
use specification_enhancemen.Store.Identities.{get_ldi_by_spiffe_id}
use specification_enhancemen.Identity.{Service, Call}
use specification_enhancemen.Identity.Refusals.{IsRefused, renew-inactive, issue_jwt_svid-inactive}
use specification_enhancemen.Identity.Renewal.{renew}
use specification_enhancemen.Identity.JwtSvid.{Claims, JwtSvidConfig, issue_jwt_svid}
use specification_enhancemen.Identity.Revocation.{Revoked, revoke_spiffe_id}
use specification_enhancemen.Identity.Revocation.Effective.{revoke_spiffe_id-effective}

-- After RevokeSPIFFEID of a known SPIFFE ID, Renew and IssueJWTSVID for it return an error at any time
-- and change no table.
pub revoke_spiffe_id-refuses :
    (s : Service) (c : Call) (csr : Csr) (now : Instant) (spiffe_id reason : String) (l : Ldi)
    (sign : Claims → Option String) (cfg : JwtSvidConfig) (audiences : List String) (ttl : ℕ)
    (rev : Revoked) (db db' : Db)
    → get_ldi_by_spiffe_id spiffe_id db ≡ ok l
    → revoke_spiffe_id now spiffe_id reason db ≡ (ok rev, db')
    → IsRefused db' (renew s c spiffe_id csr db')
      × IsRefused db' (issue_jwt_svid sign c.now c.fresh_uuid cfg spiffe_id audiences ttl db')
revoke_spiffe_id-refuses s c csr now spiffe_id reason l sign cfg audiences ttl rev db db' known
      done =
    let (rev₁, db₁, done₁, (nothing_left, listed, reported, status)) =
      revoke_spiffe_id-effective now spiffe_id reason l db known in
    let same : db₁ ≡ db' = ap (λ (m : Result Err Revoked × Db). m.1) (sym done₁ ∙ done) in
    let after = record l { status = LdiStatus.revoked; updated_at = now } in
    let found : get_ldi_by_spiffe_id spiffe_id db' ≡ ok after =
      subst (λ d. get_ldi_by_spiffe_id spiffe_id d ≡ ok after) same status in
    (
      (Err.not_found, renew-inactive s c spiffe_id csr after db' found refl),
      issue_jwt_svid-inactive sign c.now c.fresh_uuid cfg spiffe_id audiences ttl after db' found
          refl,
    )
