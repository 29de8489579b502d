-- ===== src/Platform.antt =====
-- What the server takes from crypto/x509, crypto/sha256, encoding/hex and encoding/base64: the
-- functions of a record, which the definitions take as an argument. Keys and digests are opaque
-- texts.
use specification_enhancemen.Prelude.{ℕ, String, Bool, Option, List}
use specification_enhancemen.Instant.{Instant}

-- The type switch on a public key: the curve is P-256 or not, the modulus has so many bits
pub data KeyKind : Type 0 where
  ecdsa : (is_p256 : Bool) → KeyKind
  rsa : (modulus_bits : ℕ) → KeyKind
  other_key : KeyKind

-- The fields of an x509.Certificate that the code reads. `serial_upper_hex` is
-- strings.ToUpper(leaf.SerialNumber.Text(16)).
pub record Certificate : Type 0 where
  pub raw : String
  pub serial_upper_hex : String
  pub not_before : Instant
  pub not_after : Instant
  pub public_key : String
  pub key_kind : KeyKind
  pub uris : List String

pub data SignatureAlgorithm : Type 0 where
  ecdsa_with_sha256 sha256_with_rsa_pss other_algorithm : SignatureAlgorithm

-- x509.CertificateRequest; `signature_valid` says whether CheckSignature returns nil.
pub record CertificateRequest : Type 0 where
  pub public_key : String
  pub key_kind : KeyKind
  pub signature_algorithm : SignatureAlgorithm
  pub signature_valid : Bool

-- csr.CSR: the DER of the request, the public key of the parsed request, "ES256" or "PS256"
pub record Csr : Type 0 where
  pub der : String
  pub public_key : String
  pub algorithm : String

pub record Platform : Type 0 where
  pub sha256 : String → String
  pub hex : String → String
  -- x509.ParseCertificate
  pub parse_certificate : String → Option Certificate
  -- x509.ParseCertificateRequest
  pub parse_certificate_request : String → Option CertificateRequest
  -- x509.MarshalPKIXPublicKey
  pub marshal_public_key : String → Option String
  -- base64.StdEncoding.DecodeString
  pub decode_base64 : String → Option String
  -- base64.RawURLEncoding, between a text and bytes
  pub decode_raw_url : String → Option (List ℕ)
  pub encode_raw_url : List ℕ → String
  -- sha256.Sum256 of bytes
  pub sha256_bytes : List ℕ → String
  -- pem.EncodeToMemory of a CERTIFICATE block
  pub encode_pem : String → String
  -- base64.RawURLEncoding.DecodeString, as a text
  pub decode_raw_url_text : String → Option String
