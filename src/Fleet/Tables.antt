-- ===== src/Fleet/Tables.antt =====
-- completed/sup_desired_state_via_manifest_api/pkg/wfm/adapter/persistence/sqlitedb: the tables of
-- schema.sql and the queries of db/query.sql.go, with their foreign keys. The column created_at is
-- never read.
pub mod Sound
use Prim.Native.String.{compare}
use text.Mathlib.Text.{is_lt}
use specification_enhancemen.Prelude.{
  ℕ, String, ◌==◌, Bool, true, ◌&&◌, not, Option, none, some, List, [], ◌∷◌, ◌++◌, if◌then◌else◌,
  find, any, modify, select, order_by,
}
use specification_enhancemen.Fleet.{Deployment}

pub record DeploymentRow : Type 0 where
  pub id : String
  pub descriptor_digest : String
  pub device_id : String

-- A version is the unsigned reading of the 64-bit column.
pub record ManifestRow : Type 0 where
  pub device_id : String
  pub version : ℕ
  pub bundle_digest : Option String

pub record DeploymentBlob : Type 0 where
  pub digest : String
  pub descriptor : String

pub record BundleBlob : Type 0 where
  pub digest : String
  pub archive : String

pub record Tables : Type 0 where
  pub devices : List String
  pub deployments : List DeploymentRow
  pub manifests : List ManifestRow
  pub deployment_blobs : List DeploymentBlob
  pub bundle_blobs : List BundleBlob

-- GetDeviceId: is there a row?
unfoldable pub has_device : String → Tables → Bool
has_device id t = any (λ d. d == id) t.devices

abbrev pub has_blob_digest : String → DeploymentBlob → Bool
has_blob_digest digest b = b.digest == digest

abbrev pub has_bundle_digest : String → BundleBlob → Bool
has_bundle_digest digest b = b.digest == digest

abbrev pub is_of_device : String → ManifestRow → Bool
is_of_device device_id m = m.device_id == device_id

-- GetDeploymentBlobByDigest
unfoldable pub get_deployment_blob : String → Tables → Option DeploymentBlob
get_deployment_blob digest t = find (has_blob_digest digest) t.deployment_blobs

-- GetBundleBlobByDigest
unfoldable pub get_bundle_blob : String → Tables → Option BundleBlob
get_bundle_blob digest t = find (has_bundle_digest digest) t.bundle_blobs

-- The join of deployments with their blobs
unfoldable pub join_blobs : List DeploymentRow → List DeploymentBlob → List Deployment
join_blobs [] blobs = []
join_blobs (r ∷ rows) blobs =
    let rest = join_blobs rows blobs in
    elim (find (has_blob_digest r.descriptor_digest) blobs) [
      | none ↦ rest
      | some b ↦
          record { id = r.id; descriptor = b.descriptor; descriptor_digest = r.descriptor_digest }
          ∷ rest
    ]

-- ORDER BY d.id
abbrev pub by_id : Deployment → Deployment → Bool
by_id a b = not (is_lt (compare b.id a.id))

-- GetDeploymentsByDeviceId
unfoldable pub get_deployments : String → Tables → List Deployment
unfolding join_blobs
get_deployments device_id t =
    order_by by_id
      (join_blobs (select (λ r. r.device_id == device_id) t.deployments) t.deployment_blobs)

-- GetManifestByDeviceId
unfoldable pub get_manifest_row : String → Tables → Option ManifestRow
get_manifest_row device_id t = find (is_of_device device_id) t.manifests

-- DeleteDeployment
unfoldable pub delete_deployment_row : String → String → Tables → Tables
delete_deployment_row device_id id t = record t {
  deployments = select (λ r. not (r.device_id == device_id && r.id == id)) t.deployments;
}

-- InsertDeploymentBlob
unfoldable pub insert_deployment_blob : String → String → Tables → Tables
insert_deployment_blob digest descriptor t =
    if any (has_blob_digest digest) t.deployment_blobs then t else record t {
      deployment_blobs =
          t.deployment_blobs ++ record { digest = digest; descriptor = descriptor } ∷ [];
    }

-- InsertBundleBlob
unfoldable pub insert_bundle_blob : String → String → Tables → Tables
insert_bundle_blob digest archive t =
    if any (has_bundle_digest digest) t.bundle_blobs then t else record t {
      bundle_blobs = t.bundle_blobs ++ record { digest = digest; archive = archive } ∷ [];
    }

-- UpsertDeployment; `none` is a foreign key that points nowhere.
unfoldable pub upsert_deployment_row : DeploymentRow → Tables → Option Tables
unfolding has_device
upsert_deployment_row r t =
    let same : DeploymentRow → Bool = λ x. x.device_id == r.device_id && x.id == r.id in
    if not (any (has_blob_digest r.descriptor_digest) t.deployment_blobs)
    then none
    else if any same t.deployments
    then some (record t {
      deployments =
          modify same (λ x. record x { descriptor_digest = r.descriptor_digest }) t.deployments;
    })
    else if not (has_device r.device_id t)
    then none
    else some (record t { deployments = t.deployments ++ r ∷ [] })

-- Does a bundle digest point to a row?
unfoldable pub has_bundle : Option String → List BundleBlob → Bool
has_bundle none bundles = true
has_bundle (some digest) bundles = any (has_bundle_digest digest) bundles

-- UpsertManifest; `none` is a foreign key that points nowhere.
unfoldable pub upsert_manifest_row : ManifestRow → Tables → Option Tables
unfolding has_bundle has_device
upsert_manifest_row m t =
    if not (has_bundle m.bundle_digest t.bundle_blobs && has_device m.device_id t)
    then none
    else if any (is_of_device m.device_id) t.manifests
    then some (record t {
      manifests =
          modify (is_of_device m.device_id)
            (λ x. record x { version = m.version; bundle_digest = m.bundle_digest }) t.manifests;
    })
    else some (record t { manifests = t.manifests ++ m ∷ [] })
