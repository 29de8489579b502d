-- ===== src/Fleet/Repository.antt =====
-- completed/sup_desired_state_via_manifest_api/pkg/wfm/adapter/persistence/sqlitedb/repository:
-- deployment.go. A transaction that is rolled back leaves the tables as they were; the other failures
-- of the database are not represented.
pub mod Integrity
pub mod Versions
use specification_enhancemen.Prelude.{
  ℕ, String, ◌==◌, Bool, ◌||◌, not, Option, none, some, List, [], ◌∷◌, Result, ok, err,
  if◌then◌else◌, any,
}
use specification_enhancemen.Fleet.{FleetErr, Deployment, Manifest}
use specification_enhancemen.Fleet.Tables.{
  Tables, has_device, get_deployment_blob, get_bundle_blob, get_deployments, get_manifest_row,
  delete_deployment_row, insert_deployment_blob, insert_bundle_blob, upsert_deployment_row,
  upsert_manifest_row,
}

abbrev pub or_empty : Option String → String
or_empty none = ""
or_empty (some s) = s

-- loadManifestWithDeployments; `none` is ErrManifestNotFound.
unfoldable pub load_manifest : String → Tables → Option Manifest
load_manifest device_id t = elim (get_manifest_row device_id t) [
  | none ↦ none
  | some row ↦ some (record {
    version = row.version;
    bundle_archive = "";
    bundle_digest = or_empty row.bundle_digest;
    deployments = get_deployments device_id t;
  })
]

-- The manifest that an update starts from
unfoldable pub current_manifest : String → Tables → Manifest
unfolding load_manifest
current_manifest device_id t = elim (load_manifest device_id t) [
  | none ↦ record { version = 1; bundle_archive = ""; bundle_digest = ""; deployments = [] }
  | some m ↦ m
]

abbrev pub has_id : String → Deployment → Bool
has_id id d = d.id == id

-- The rows of the deployments that the update has taken out
unfoldable pub delete_gone : String → List Deployment → List Deployment → Tables → Tables
delete_gone device_id [] current t = t
delete_gone device_id (d ∷ original) current t =
    let rest = delete_gone device_id original current t in
    if any (has_id d.id) current then rest else delete_deployment_row device_id d.id rest

-- The blob and the row of each deployment
unfoldable pub store_deployments : String → List Deployment → Tables → Option Tables
store_deployments device_id [] t = some t
store_deployments device_id (d ∷ ds) t =
    elim (upsert_deployment_row
      (record { id = d.id; descriptor_digest = d.descriptor_digest; device_id = device_id })
      (insert_deployment_blob d.descriptor_digest d.descriptor t)) [
        | none ↦ none
        | some t₁ ↦ store_deployments device_id ds t₁
      ]

unfoldable pub store_bundle : Manifest → Tables → Tables
store_bundle m t =
    if m.bundle_archive == "" || m.bundle_digest == ""
    then t
    else insert_bundle_blob m.bundle_digest m.bundle_archive t

-- UpsertDeployments from the callback's success on; `none` is a constraint that fails.
unfoldable pub store_manifest : String → List Deployment → Manifest → Tables → Option Tables
unfolding delete_gone store_deployments store_bundle
store_manifest device_id original m t =
    elim (upsert_manifest_row
      (record {
        device_id = device_id;
        version = m.version;
        bundle_digest = if m.bundle_digest == "" then none else some m.bundle_digest;
      })
      (store_bundle m (delete_gone device_id original m.deployments t))) [
        | none ↦ none
        | some t₁ ↦ store_deployments device_id m.deployments t₁
      ]

-- UpsertDeployments
unfoldable pub upsert_deployments :
    String → (Manifest → Result FleetErr Manifest) → Tables → Result FleetErr (Unit {0}) × Tables
unfolding store_manifest current_manifest
upsert_deployments device_id update t =
    let loaded = current_manifest device_id t in
    if not (has_device device_id t)
    then (err FleetErr.device_not_found, t)
    else elim (update loaded) [
      | err e ↦ (err e, t)
      | ok m ↦ elim (store_manifest device_id loaded.deployments m t) [
        | none ↦ (err FleetErr.internal, t)
        | some t₁ ↦ (ok tt, t₁)
      ]
    ]

-- GetDeploymentManifest
unfoldable pub get_manifest : String → Tables → Result FleetErr Manifest
unfolding load_manifest
get_manifest device_id t =
    if not (has_device device_id t)
    then err FleetErr.device_not_found
    else elim (load_manifest device_id t) [ none ↦ err FleetErr.manifest_not_found | some m ↦ ok m ]

-- GetDeployment
unfoldable pub get_deployment : String → String → String → Tables → Result FleetErr Deployment
get_deployment device_id deployment_id digest t =
    if not (has_device device_id t)
    then err FleetErr.device_not_found
    else elim (get_deployment_blob digest t) [
      | none ↦ err FleetErr.deployment_not_found
      | some b ↦
          ok
            (record { id = deployment_id; descriptor = b.descriptor; descriptor_digest = b.digest })
    ]

-- GetBundle
unfoldable pub get_stored_bundle : String → String → Tables → Result FleetErr String
get_stored_bundle device_id digest t =
    if not (has_device device_id t)
    then err FleetErr.device_not_found
    else elim (get_bundle_blob digest t) [
      | none ↦ err FleetErr.bundle_not_found
      | some b ↦ ok b.archive
    ]
