-- ===== src/Bootstrap/Secrets/RoundTrip.antt =====
-- Wire and ParseSecret of bootstrap/enrollmenttoken/tokens/token.go.
use text.Mathlib.TextPositions.{len-append, slice-append_right, starts_with-append}
use specification_enhancemen.Prelude.{ℕ, some, List, ◌≡◌, refl, length}
use specification_enhancemen.Platform.{Platform}
use specification_enhancemen.Bootstrap.Secrets.{
  wire_prefix, secret_len_bytes, trim_prefix, parse_secret, wire,
}

-- ParseSecret reads a secret of 16 bytes back from its wire form, where decoding base64url undoes
-- encoding it.
pub parse_secret-wire :
    (p : Platform) (secret : List ℕ)
    → length secret ≡ secret_len_bytes
    → p.decode_raw_url (p.encode_raw_url secret) ≡ some secret
    → parse_secret p (wire p secret) ≡ some secret
unfolding parse_secret wire
parse_secret-wire p secret sized decodes =
    let body = p.encode_raw_url secret in
    let trimmed : trim_prefix (wire p secret) wire_prefix ≡ body =
      rw (len-append wire_prefix body) (slice-append_right wire_prefix body) in
    rw (starts_with-append wire_prefix body, trimmed, decodes, sized) refl
