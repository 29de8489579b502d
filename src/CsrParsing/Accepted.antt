-- ===== src/CsrParsing/Accepted.antt =====
-- Parse of csr/parse.go: what it accepts.
use specification_enhancemen.Prelude.{
  ℕ, ◌≤◌, String, Bool, true, false, ◌⊎◌, inl, inr, some, ◌≡◌, refl, arith, ok, Option-cases,
  Result-cases,
}
use specification_enhancemen.Platform.{
  Platform, CertificateRequest, KeyKind, SignatureAlgorithm, ecdsa, rsa, other_key,
  ecdsa_with_sha256, sha256_with_rsa_pss, other_algorithm, Csr,
}
use specification_enhancemen.CsrParsing.{
  has_pem_armor, is_ecdsa_with_sha256, is_sha256_with_rsa_pss, enforce_miaf_crypto, parse_der,
  parse_csr,
}

-- The keys that the cryptographic requirements allow, each with its signature algorithm
abbrev pub IsMiafKey : CertificateRequest → String → Type 0
IsMiafKey req alg =
    ((req.key_kind ≡ ecdsa true) × (req.signature_algorithm ≡ ecdsa_with_sha256) × (alg ≡ "ES256"))
    ⊎ ((bits : ℕ) × (req.key_kind ≡ rsa bits)
        × (3072 ≤ bits)
        × (req.signature_algorithm ≡ sha256_with_rsa_pss)
        × (alg ≡ "PS256"))

KeyKind-cases :
    (k : KeyKind) → ((p : Bool) × (k ≡ ecdsa p)) ⊎ (((bits : ℕ) × (k ≡ rsa bits)) ⊎ (k ≡ other_key))
KeyKind-cases (ecdsa p) = inl (p, refl)
KeyKind-cases (rsa bits) = inr (inl (bits, refl))
KeyKind-cases other_key = inr (inr refl)

is_ecdsa_with_sha256-only :
    (a : SignatureAlgorithm) → is_ecdsa_with_sha256 a ≡ true → a ≡ ecdsa_with_sha256
is_ecdsa_with_sha256-only ecdsa_with_sha256 h = refl
is_ecdsa_with_sha256-only sha256_with_rsa_pss h = absurd (ground arith)
is_ecdsa_with_sha256-only other_algorithm h = absurd (ground arith)

is_sha256_with_rsa_pss-only :
    (a : SignatureAlgorithm) → is_sha256_with_rsa_pss a ≡ true → a ≡ sha256_with_rsa_pss
is_sha256_with_rsa_pss-only ecdsa_with_sha256 h = absurd (ground arith)
is_sha256_with_rsa_pss-only sha256_with_rsa_pss h = refl
is_sha256_with_rsa_pss-only other_algorithm h = absurd (ground arith)

enforce_miaf_crypto-IsMiafKey :
    (req : CertificateRequest) (alg : String) → enforce_miaf_crypto req ≡ ok alg → IsMiafKey req alg
unfolding enforce_miaf_crypto
enforce_miaf_crypto-IsMiafKey req alg h = elim (KeyKind-cases req.key_kind) [
  | inl (p, k) ↦
      let signed : is_ecdsa_with_sha256 req.signature_algorithm ≡ true = ground arith in
      inl (ground arith, is_ecdsa_with_sha256-only _ signed, ground arith)
  | inr (inl (bits, k)) ↦
      let signed : is_sha256_with_rsa_pss req.signature_algorithm ≡ true = ground arith in
      inr (bits, k, ground arith, is_sha256_with_rsa_pss-only _ signed, ground arith)
  | inr (inr k) ↦ absurd (ground arith)
]

-- A request that Parse accepts is the parsed DER of the given base64 text, with a valid
-- self-signature over a P-256 key by ES256 or over an RSA key of at least 3072 bits by PS256, and
-- neither the text nor the DER holds a PEM marker.
pub parse_csr_accepted :
    (p : Platform) (encoded : String) (c : Csr)
    → parse_csr p encoded ≡ ok c
    → (req : CertificateRequest) × (p.decode_base64 encoded ≡ some c.der)
      × (p.parse_certificate_request c.der ≡ some req)
      × (req.signature_valid ≡ true)
      × (c.public_key ≡ req.public_key)
      × IsMiafKey req c.algorithm
      × (has_pem_armor encoded ≡ false)
      × (has_pem_armor c.der ≡ false)
unfolding parse_csr parse_der
parse_csr_accepted p encoded c h = elim (Option-cases (p.decode_base64 encoded)) [
  | inl e ↦ absurd (ground arith)
  | inr (der, e) ↦ elim (Option-cases (p.parse_certificate_request der)) [
    | inl f ↦ absurd (ground arith)
    | inr (req, f) ↦ elim (Result-cases (enforce_miaf_crypto req)) [
      | inr (x, g) ↦ absurd (ground arith)
      | inl (alg, g) ↦
          let key = enforce_miaf_crypto-IsMiafKey req alg g in
          let made : c ≡ record { der = der; public_key = req.public_key; algorithm = alg } =
            ground arith in
          (
            req,
            rw made e,
            rw made f,
            ground arith,
            rw made refl,
            rw made key,
            ground arith,
            rw made (ground arith),
          )
    ]
  ]
]
