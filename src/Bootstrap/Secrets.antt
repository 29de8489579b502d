-- ===== src/Bootstrap/Secrets.antt =====
-- completed/miaf-poc/pkg/mis/bootstrap/enrollmenttoken/tokens/token.go: the secret of an enrollment
-- token and its wire form. A secret is the list of its bytes.
pub mod RoundTrip
use Prim.Native.String.{len, slice}
use Prim.Native.Char.{code}
use text.Mathlib.Text.{starts_with}
use specification_enhancemen.Prelude.{
  ℕ, String, ◌<>◌, Bool, true, ◌&&◌, ◌||◌, not, Option, none, some, List, if◌then◌else◌, eqb, ltb,
  length,
}
use specification_enhancemen.Platform.{Platform}

abbrev pub wire_prefix : String
wire_prefix = "margo-et-v1."

abbrev pub secret_len_bytes : ℕ
secret_len_bytes = 16

-- strings.TrimPrefix, for a text that has the prefix
abbrev pub trim_prefix : String → String → String
trim_prefix s prefix = slice s (len prefix) (len s)

-- ParseSecret; every failure is ErrMalformedWire.
unfoldable pub parse_secret : Platform → String → Option (List ℕ)
parse_secret p wire =
    if not (starts_with wire wire_prefix)
    then none
    else elim (p.decode_raw_url (trim_prefix wire wire_prefix)) [
      | none ↦ none
      | some raw ↦ if not (eqb (length raw) secret_len_bytes) then none else some raw
    ]

-- Wire
unfoldable pub wire : Platform → List ℕ → String
wire p secret = wire_prefix <> p.encode_raw_url secret

-- unicode.IsSpace
abbrev pub is_space : ℕ → Bool
is_space c =
    (ltb 8 c && ltb c 14)
    || eqb c 32
    || eqb c 133
    || eqb c 160
    || eqb c 5760
    || (ltb 8191 c && ltb c 8203)
    || eqb c 8232
    || eqb c 8233
    || eqb c 8239
    || eqb c 8287
    || eqb c 12288

-- strings.TrimSpace(s) == ""
unfoldable pub is_blank : String → Bool
is_blank String.[] = true
is_blank (String.◌∷◌ c s) = is_space (code c) && is_blank s
