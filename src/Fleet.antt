-- ===== src/Fleet.antt =====
-- completed/sup_desired_state_via_manifest_api: the types of pkg/wfm/core/domain and pkg/common, and
-- what the server and its client take from crypto/sha256, yaml.v3, the validator, archive/tar and
-- compress/gzip. A BLOB is the String of its bytes.
pub mod Tables
pub mod Repository
pub mod Service
pub mod Fetching
pub mod Client
pub mod Etags
pub mod Handler
use specification_enhancemen.Prelude.{ℕ, String, ◌<>◌, Bool, Option, List}

-- domain.Err…; an error that joins ErrInternal with another one counts as the other one, which the
-- handlers look for first.
pub data FleetErr : Type 0 where
  internal invalid_descriptor device_not_found manifest_not_found : FleetErr
  deployment_not_found bundle_not_found : FleetErr

-- domain.ApplicationDeployment
pub record Deployment : Type 0 where
  pub id : String
  pub descriptor : String
  pub descriptor_digest : String

-- domain.ApplicationDeploymentManifest; a version is below 2 ^ 64, and a nil archive is the empty text.
pub record Manifest : Type 0 where
  pub version : ℕ
  pub bundle_archive : String
  pub bundle_digest : String
  pub deployments : List Deployment

-- common.ApplicationDeploymentDescriptor: the fields that the code reads or writes; `rest` stands for
-- the others.
pub record Descriptor : Type 0 where
  pub application_id : String
  pub id : String
  pub name : String
  pub rest : String

-- file of service/deployment.go
pub record BundleFile : Type 0 where
  pub name : String
  pub content : String

pub record Formats : Type 0 where
  pub sha256_hex : String → String
  -- yaml.Unmarshal, yaml.Marshal
  pub read_descriptor : String → Option Descriptor
  pub render_descriptor : Descriptor → Option String
  -- (*validator.Validate).Struct
  pub is_valid : Descriptor → Bool
  -- createBundleArchive, by tar.Writer and gzip.Writer
  pub write_archive : List BundleFile → Option String

-- common.CalculateDigest
unfoldable pub calculate_digest : Formats → String → String
calculate_digest f content = "sha256:" <> f.sha256_hex content
