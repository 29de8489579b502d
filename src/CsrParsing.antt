-- ===== src/CsrParsing.antt =====
-- completed/miaf-poc/pkg/mis/csr/parse.go: Parse of a certificate request.
pub mod Accepted
use text.Mathlib.Text.{starts_with}
use specification_enhancemen.Prelude.{
  String, ◌==◌, Bool, true, false, not, ◌||◌, none, some, Result, ok, err, if◌then◌else◌, ltb,
}
use specification_enhancemen.Errors.{CsrErr}
use specification_enhancemen.Platform.{
  Platform, CertificateRequest, SignatureAlgorithm, ecdsa, rsa, other_key, ecdsa_with_sha256,
  sha256_with_rsa_pss, other_algorithm, Csr,
}

-- containsASCII, and hasPEMArmor: a text that holds the marker is long enough.
unfoldable pub contains_ascii : String → String → Bool
contains_ascii String.[] needle = starts_with "" needle
contains_ascii (String.◌∷◌ c s) needle =
    let later = contains_ascii s needle in starts_with (String.◌∷◌ c s) needle || later

abbrev pub has_pem_armor : String → Bool
has_pem_armor s = contains_ascii s "-----BEGIN"

abbrev pub is_ecdsa_with_sha256 : SignatureAlgorithm → Bool
is_ecdsa_with_sha256 ecdsa_with_sha256 = true
is_ecdsa_with_sha256 sha256_with_rsa_pss = false
is_ecdsa_with_sha256 other_algorithm = false

abbrev pub is_sha256_with_rsa_pss : SignatureAlgorithm → Bool
is_sha256_with_rsa_pss ecdsa_with_sha256 = false
is_sha256_with_rsa_pss sha256_with_rsa_pss = true
is_sha256_with_rsa_pss other_algorithm = false

-- enforceMIAFCrypto
unfoldable pub enforce_miaf_crypto : CertificateRequest → Result CsrErr String
enforce_miaf_crypto req = elim req.key_kind [
  | ecdsa is_p256 ↦
      if not is_p256
      then err CsrErr.unsupported_key
      else if not (is_ecdsa_with_sha256 req.signature_algorithm)
      then err CsrErr.unsupported_alg
      else ok "ES256"
  | rsa bits ↦
      if ltb bits 3072
      then err CsrErr.unsupported_key
      else if not (is_sha256_with_rsa_pss req.signature_algorithm)
      then err CsrErr.unsupported_alg
      else ok "PS256"
  | other_key ↦ err CsrErr.unsupported_key
]

-- Parse, from the decoded DER on
unfoldable pub parse_der : Platform → String → Result CsrErr Csr
unfolding enforce_miaf_crypto
parse_der p der =
    if has_pem_armor der then err CsrErr.pem_armor else elim (p.parse_certificate_request der) [
      | none ↦ err CsrErr.malformed
      | some req ↦
          if not req.signature_valid
          then err CsrErr.bad_signature
          else elim (enforce_miaf_crypto req) [
            | err e ↦ err e
            | ok alg ↦ ok (record { der = der; public_key = req.public_key; algorithm = alg })
          ]
    ]

-- Parse
unfoldable pub parse_csr : Platform → String → Result CsrErr Csr
unfolding parse_der
parse_csr p encoded =
    if encoded == ""
    then err CsrErr.malformed
    else if has_pem_armor encoded
    then err CsrErr.pem_armor
    else elim (p.decode_base64 encoded) [ none ↦ err CsrErr.malformed | some der ↦ parse_der p der ]
