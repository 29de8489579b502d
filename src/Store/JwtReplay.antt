-- ===== src/Store/JwtReplay.antt =====
-- completed/miaf-poc/pkg/mis/store/jwt_replay.go and issued_jwt_svids.go: the jti replay table and
-- the audit of JWT SVIDs.
pub mod Replay
use specification_enhancemen.Prelude.{
  String, ◌==◌, Bool, none, some, List, [], ◌∷◌, ◌++◌, Result, ok, err, if◌then◌else◌, ltb, any,
  find, modify,
}
use specification_enhancemen.Instant.{Instant}
use specification_enhancemen.Errors.{ReplayErr, replayed}
use specification_enhancemen.Store.{JwtReplayRow, IssuedJwtSvid, Db}

abbrev pub has_jti : String → JwtReplayRow → Bool
has_jti j r = r.jti == j

-- INSERT … ON CONFLICT(jti) DO UPDATE SET expires_at
unfoldable pub remember_jti : String → Instant → List JwtReplayRow → List JwtReplayRow
remember_jti jti expires_at rows =
    if any (has_jti jti) rows
    then modify (has_jti jti) (λ r. record r { expires_at = expires_at }) rows
    else rows ++ record { jti = jti; expires_at = expires_at } ∷ []

-- Witness; `now` is time.Now() in this call.
unfoldable pub witness : Instant → String → Instant → Db → Result ReplayErr (Unit {0}) × Db
unfolding remember_jti
witness now jti expires_at db =
    let fresh : Db = record db { jwt_replay = remember_jti jti expires_at db.jwt_replay } in
    elim (find (has_jti jti) db.jwt_replay) [
      | none ↦ (ok tt, fresh)
      | some r ↦ if ltb now r.expires_at then (err replayed, db) else (ok tt, fresh)
    ]

-- (*IssuedJWTSVIDs).Record: INSERT … ON CONFLICT(jti) DO NOTHING
unfoldable pub record_jwt_svid : IssuedJwtSvid → Db → Db
record_jwt_svid rec db =
    if any (λ r. r.jti == rec.jti) db.issued_jwt_svids
    then db
    else record db { issued_jwt_svids = db.issued_jwt_svids ++ rec ∷ [] }
