-- ===== src/Errors.antt =====
-- The error sentinels of pkg/mis/identity and of the token store under completed/miaf-poc. Every
-- `fmt.Errorf("%w: …")` keeps its sentinel; the text around it is not modelled.

-- identity.Err…, and the failures that carry no sentinel: a refused SQL constraint, a bad argument,
-- the issuer, a certificate that does not parse.
pub data Err : Type 0 where
  not_found new_ldi_forbidden key_rotation_not_permitted unsupported_replacement_method : Err
  spurious_replacement_authorization replacement_not_authorized : Err
  constraint_failed bad_argument issuer_failed empty_chain malformed_leaf malformed_key : Err
  signing_failed : Err

-- tokens.Err…; `retry_window_expired` wraps ErrNotFound too.
pub data TokenErr : Type 0 where
  not_found expired already_used outcome_exists retry_window_expired : TokenErr
  constraint_failed incomplete_outcome bad_ttl : TokenErr

-- replay.ErrReplay
pub data ReplayErr : Type 0 where
  replayed : ReplayErr

-- csr.Err…
pub data CsrErr : Type 0 where
  pem_armor malformed unsupported_key unsupported_alg bad_signature : CsrErr

-- The error that Validate of the enrollment-token method returns: enrollmenttoken.Err…, or one of
-- the store
pub data TokenProofErr : Type 0 where
  missing_token invalid_token : TokenProofErr
  store_failed : TokenErr → TokenProofErr

-- The errors of Commit
pub data CommitErr : Type 0 where
  no_fingerprint : CommitErr
  not_recorded : TokenErr → CommitErr

-- What the handler of an enrollment tells apart among the errors of the bootstrap validators: the
-- sentinels of factorycertmtls and factorycertjwt, those of enrollmenttoken, any other
pub data BootstrapErr : Type 0 where
  proof_rejected token_rejected other_failure : BootstrapErr

-- What extractAndVerifyChain tells apart: no x5c header, a chain that does not verify, no chain
pub data ChainErr : Type 0 where
  no_x5c untrusted no_chain : ChainErr

-- jwtexchange.Err…; `misconfigured` stands for the errors on VerifyConfig, which have no sentinel.
pub data AssertionErr : Type 0 where
  misconfigured missing invalid replayed untrusted_chain unknown_spiffe_id : AssertionErr
  unsupported_alg : AssertionErr

-- factorycertjwt.Err…
pub data FactoryJwtErr : Type 0 where
  missing_assertion malformed_assertion unsupported_alg bad_signature : FactoryJwtErr
  untrusted_chain claim_missing claim_invalid replayed : FactoryJwtErr

-- factorycertmtls.Err…
pub data FactoryMtlsErr : Type 0 where
  missing_mtls untrusted_chain unexpected_proof : FactoryMtlsErr
