-- ===== src/Transport/Revocations.antt =====
-- completed/miaf-poc/pkg/mis/transport/http/revocations.go and completed/miaf-poc/pkg/common/revocations.go
use specification_enhancemen.Prelude.{
  String, ◌==◌, Bool, ◌&&◌, not, Option, none, some, List, map, if◌then◌else◌, eqb,
}
use specification_enhancemen.Instant.{Instant}
use specification_enhancemen.Store.{RevocationEntry, Db}
use specification_enhancemen.Store.RevokedSvids.{list_revocations}
use specification_enhancemen.Transport.{Problem}
use specification_enhancemen.Transport.Conditional.{
  HttpFormats, weak_etag, matches_etag, Validators, Served, problem, unmodified, body_sent,
  last_modified_header, is_unchanged_since,
}

-- RevokedSVIDEntry
pub record RevokedSvidEntry : Type 0 where
  pub cert_fingerprint_sha256 : String
  pub serial_number : String
  pub revoked_at : String

-- RevocationListDTO
pub record RevocationListDto : Type 0 where
  pub last_updated : String
  pub revoked_svids : List RevokedSvidEntry

-- errors.RevocationFormat
abbrev pub revocation_format : Problem
revocation_format = record {
  status = 500;
  type_uri = "https://margo.org/docs/errors/revocation-format";
}

-- The list of handleRevocations
unfoldable pub list_dto : HttpFormats → List RevocationEntry × Instant → RevocationListDto
list_dto f (entries, last_updated) = record {
  last_updated = if eqb last_updated 0 then "" else f.format_rfc3339 last_updated;
  revoked_svids =
      map
        (λ e. record {
          cert_fingerprint_sha256 = e.fingerprint_hex;
          serial_number = e.serial_hex;
          revoked_at = f.format_rfc3339 e.revoked_at;
        })
        entries;
}

-- The conditions of handleRevocations for a 304
unfoldable pub is_list_unmodified : HttpFormats → Validators → Instant → String → Bool
unfolding matches_etag is_unchanged_since
is_list_unmodified f v last_updated etag =
    if v.if_none_match == ""
    then not (v.if_modified_since == "")
      && (not (eqb last_updated 0) && is_unchanged_since f last_updated v.if_modified_since)
    else matches_etag v.if_none_match etag

-- handleRevocations from the body on
unfoldable pub answer_list : HttpFormats → Validators → Instant → String → Served
unfolding weak_etag is_list_unmodified
answer_list f v last_updated body =
    let etag = weak_etag f body in
    let last_modified = last_modified_header f last_updated in
    if is_list_unmodified f v last_updated etag
    then unmodified etag last_modified
    else body_sent etag last_modified "" body

-- handleRevocations; `marshal` is json.Marshal of the list. A read of the store does not fail in the
-- model.
unfoldable pub handle_revocations :
    HttpFormats → (RevocationListDto → Option String) → Instant → Validators → Db → Served
unfolding list_dto answer_list
handle_revocations f marshal now v db =
    let found = list_revocations now db in
    elim (marshal (list_dto f found)) [
      | none ↦ problem revocation_format
      | some body ↦ answer_list f v found.1 body
    ]
