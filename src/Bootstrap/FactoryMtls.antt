-- ===== src/Bootstrap/FactoryMtls.antt =====
-- completed/miaf-poc/pkg/mis/bootstrap/factorycertmtls/validator.go.
use specification_enhancemen.Prelude.{
  ◌==◌, Bool, false, ◌||◌, not, none, some, List, [], ◌∷◌, Result, ok, err, if◌then◌else◌,
}
use specification_enhancemen.Errors.{FactoryMtlsErr, BootstrapErr}
use specification_enhancemen.Platform.{Platform, Certificate}
use specification_enhancemen.Identity.{VerifiedBootstrap}
use specification_enhancemen.Bootstrap.{Credential, pending, Validator}

-- (*x509.Certificate).Verify: whether a leaf verifies under these roots and intermediates, for the
-- key usage ClientAuth
abbrev pub ChainVerifier : Type 0
ChainVerifier = List Certificate → List Certificate → Certificate → Bool

-- cred.Proof != nil with an assertion or a token
unfoldable pub has_proof : Credential → Bool
has_proof cred = elim cred.proof [
  | none ↦ false
  | some proof ↦ not (proof.assertion == "") || not (proof.token == "")
]

-- Validate of a request with these client certificates, none without TLS
unfoldable pub validate_peer :
    Platform
    → ChainVerifier
    → List Certificate
    → Credential
    → List Certificate
    → Result FactoryMtlsErr VerifiedBootstrap
unfolding has_proof
validate_peer p verify roots cred peers =
    if has_proof cred then err FactoryMtlsErr.unexpected_proof else elim peers [
      | [] ↦ err FactoryMtlsErr.missing_mtls
      | leaf ∷ intermediates ↦
          if not (verify roots intermediates leaf)
          then err FactoryMtlsErr.untrusted_chain
          else ok (record { method = cred.method; esi = p.sha256 leaf.raw })
    ]

-- The Validator of this method in a request with these client certificates: the other methods do not
-- read the request. It has no Commit, and the handler of an enrollment knows all of its errors.
unfoldable pub factory_mtls_validator :
    Platform → ChainVerifier → List Certificate → List Certificate → Validator
unfolding validate_peer
factory_mtls_validator p verify roots peers = record {
  Evidence = Unit {0};
  validate = λ _ cred _ _ db. (
    elim (validate_peer p verify roots cred peers) [
      | err _ ↦ err BootstrapErr.proof_rejected
      | ok vb ↦ ok (pending vb tt)
    ],
    db,
  );
  commit = λ _ _ _ _ _ _ db. db;
}
