-- ===== src/Transport.antt =====
-- completed/miaf-poc/pkg/mis/errors/problemdetails.go: the problems that the handlers of
-- pkg/mis/transport/http answer with. Each handler is a child module. A title and a detail are texts
-- for people and are left out.
pub mod Enrollment
pub mod Renewal
pub mod JwtSvid
pub mod Conditional
pub mod Revocations
pub mod BundleMap
pub mod Admin
use specification_enhancemen.Prelude.{ℕ, String}
use specification_enhancemen.Bootstrap.{EnrollmentResponse}

-- ProblemDetails and Spec
pub record Problem : Type 0 where
  pub status : ℕ
  pub type_uri : String

-- New
unfoldable pub about_blank : ℕ → Problem
about_blank status = record { status = status; type_uri = "about:blank" }

abbrev pub invalid_svid_request : Problem
invalid_svid_request = record {
  status = 400;
  type_uri = "https://margo.org/docs/errors/invalid-svid-request";
}

abbrev pub invalid_bootstrap_proof : Problem
invalid_bootstrap_proof = record {
  status = 401;
  type_uri = "https://margo.org/docs/errors/invalid-bootstrap-proof";
}

abbrev pub unsupported_bootstrap_method : Problem
unsupported_bootstrap_method = record {
  status = 422;
  type_uri = "https://margo.org/docs/errors/unsupported-method";
}

abbrev pub unsupported_replacement_authorization_method : Problem
unsupported_replacement_authorization_method = record {
  status = 422;
  type_uri = "https://margo.org/docs/errors/unsupported-replacement-authorization-method";
}

abbrev pub unsupported_svid_profile : Problem
unsupported_svid_profile = record {
  status = 422;
  type_uri = "https://margo.org/docs/errors/unsupported-svid-profile";
}

abbrev pub spurious_replacement : Problem
spurious_replacement = record {
  status = 400;
  type_uri = "https://margo.org/docs/errors/spurious-replacement-authorization";
}

abbrev pub replacement_refused : Problem
replacement_refused = record {
  status = 403;
  type_uri = "https://margo.org/docs/errors/replacement-not-authorized";
}

abbrev pub key_rotation_refused : Problem
key_rotation_refused = record {
  status = 409;
  type_uri = "https://margo.org/docs/errors/key-rotation-not-permitted";
}

abbrev pub too_many_requests : Problem
too_many_requests = record {
  status = 429;
  type_uri = "https://margo.org/docs/errors/too-many-requests";
}

abbrev pub invalid_enrollment_token : Problem
invalid_enrollment_token = record {
  status = 401;
  type_uri = "https://margo.org/docs/errors/invalid-enrollment-token";
}

abbrev pub invalid_audience : Problem
invalid_audience = record {
  status = 400;
  type_uri = "https://margo.org/docs/errors/invalid-audience";
}

-- What a handler that issues X.509 SVIDs writes
pub data Reply : Type 0 where
  enrolled : EnrollmentResponse → ℕ → Reply
  refused : Problem → Reply
  -- the problem too_many_requests, with the seconds of Retry-After
  limited : (retry_after : ℕ) → Reply
