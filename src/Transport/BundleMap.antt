-- ===== src/Transport/BundleMap.antt =====
-- completed/miaf-poc/pkg/mis/transport/http/bundlemap.go
use specification_enhancemen.Prelude.{
  ℕ, String, ◌<>◌, ◌==◌, ◌/◌, ◌&&◌, not, Option, none, some, if◌then◌else◌, ltb,
}
use specification_enhancemen.Instant.{Instant, second}
use specification_enhancemen.Transport.{about_blank}
use specification_enhancemen.Transport.Conditional.{
  HttpFormats, weak_etag, matches_etag, Validators, Served, problem, unmodified, body_sent,
  last_modified_header, is_unchanged_since,
}

-- The handler from the body on; `max_age` is the Cache-Control header, empty for less than a second.
unfoldable pub answer_bundle : HttpFormats → String → Validators → Instant → String → Served
unfolding weak_etag matches_etag is_unchanged_since
answer_bundle f max_age v refreshed body =
    let etag = weak_etag f body in
    let last_modified = last_modified_header f refreshed in
    let same =
      if v.if_none_match == ""
      then not (v.if_modified_since == "") && is_unchanged_since f refreshed v.if_modified_since
      else matches_etag v.if_none_match etag in
    if same then unmodified etag last_modified else body_sent etag last_modified max_age body

-- The handler of NewBundleMapHandler: `anchors` is GetTrustAnchors, `build` is bundlemap.Build and
-- `print` writes a number in decimal.
unfoldable pub handle_bundle_map :
    {A : Type 0}
    → HttpFormats
    → (ℕ → String)
    → Option (A × Instant)
    → (A → Option String)
    → Instant
    → Validators
    → Served
unfolding answer_bundle about_blank
handle_bundle_map f print anchors build max_age v = elim anchors [
  | none ↦ problem (about_blank 503)
  | some (set, refreshed) ↦ elim (build set) [
    | none ↦ problem (about_blank 500)
    | some body ↦
        let seconds = max_age / second in
        answer_bundle f (if ltb 0 seconds then "max-age=" <> print seconds else "") v refreshed body
  ]
]
