-- ===== src/Transport/Conditional.antt =====
-- completed/miaf-poc/pkg/mis/transport/http/conditional.go, and the conditional answers of bundlemap.go
-- and revocations.go

use Prim.Native.Char.{code}
use specification_enhancemen.Prelude.{
  String, ◌<>◌, ◌==◌, Bool, true, false, not, Option, none, some, List, [], ◌∷◌, if◌then◌else◌, eqb,
  ltb, any,
}
use specification_enhancemen.Instant.{Instant}
use specification_enhancemen.Transport.{Problem}
use specification_enhancemen.Transport.Renewal.{trim_left, trim_space}

-- What the handlers take from crypto/sha256, net/http, time and encoding/json: the first eight bytes of a
-- digest in lowercase hex, http.TimeFormat in UTC and ParseTime, time.RFC3339 in UTC
pub record HttpFormats : Type 0 where
  pub short_digest : String → String
  pub format_http_time : Instant → String
  pub parse_http_time : String → Option Instant
  pub format_rfc3339 : Instant → String

-- weakETag
unfoldable pub weak_etag : HttpFormats → String → String
weak_etag f body = "W/\"" <> f.short_digest body <> "\""

-- The first part of strings.Split at a comma in front, with the other parts
unfoldable pub split_commas : String → String × List String
split_commas String.[] = ("", [])
split_commas (String.◌∷◌ c s) =
    let (part, parts) = split_commas s in
    if eqb (code c) 44 then ("", part ∷ parts) else (String.◌∷◌ c part, parts)

-- matchesETag
unfoldable pub matches_etag : String → String → Bool
unfolding split_commas trim_left
matches_etag header etag =
    let h = trim_space header in
    if h == "*"
    then true
    else any (λ part. trim_space part == etag) ((split_commas h).0 ∷ (split_commas h).1)

-- The headers of a conditional request, empty where they are not there
pub record Validators : Type 0 where
  pub if_none_match : String
  pub if_modified_since : String

-- A response: the headers ETag, Last-Modified and Cache-Control are empty where they are not set.
pub data Served : Type 0 where
  problem : Problem → Served
  unmodified : (etag last_modified : String) → Served
  body_sent : (etag last_modified cache_control body : String) → Served

-- Last-Modified, which is not set for the zero of time.Time
abbrev pub last_modified_header : HttpFormats → Instant → String
last_modified_header f t = if eqb t 0 then "" else f.format_http_time t

-- Not after the time of If-Modified-Since
unfoldable pub is_unchanged_since : HttpFormats → Instant → String → Bool
is_unchanged_since f changed header = elim (f.parse_http_time header) [
  | none ↦ false
  | some t ↦ not (ltb t changed)
]
