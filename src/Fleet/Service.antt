-- ===== src/Fleet/Service.antt =====
-- completed/sup_desired_state_via_manifest_api/pkg/wfm/core/service/deployment.go. A fresh UUID is an
-- argument of the call.
pub mod Integrity
pub mod Served
pub mod Versions
use specification_enhancemen.Prelude.{
  ℕ, ◌+◌, ◌%◌, ◌^◌, String, ◌<>◌, ◌==◌, Bool, ◌&&◌, not, Option, none, some, List, [], ◌∷◌, ◌++◌,
  Result, ok, err, if◌then◌else◌, map, any,
}
use specification_enhancemen.Fleet.{
  FleetErr, Deployment, Manifest, Descriptor, BundleFile, Formats, calculate_digest,
}
use specification_enhancemen.Fleet.Tables.{Tables}
use specification_enhancemen.Fleet.Repository.{has_id, upsert_deployments, get_stored_bundle}

abbrev pub bundle_file : Deployment → BundleFile
bundle_file d = record { name = d.id <> ".yaml"; content = d.descriptor }

-- The archive and the digest of the deployments; `none` is an archive that cannot be written.
unfoldable pub bundle_of : Formats → List Deployment → Option (String × String)
bundle_of f [] = some ("", "")
bundle_of f (d ∷ ds) = elim (f.write_archive (map bundle_file (d ∷ ds))) [
  | none ↦ none
  | some archive ↦ some (archive, calculate_digest f archive)
]

-- rebuildManifestBundle
unfoldable pub rebuild_manifest_bundle : Formats → Manifest → Result FleetErr Manifest
unfolding bundle_of
rebuild_manifest_bundle f m = elim (bundle_of f m.deployments) [
  | none ↦ err FleetErr.internal
  | some (archive, digest) ↦ ok (record m {
    bundle_archive = archive;
    bundle_digest = digest;
    version = if digest == m.bundle_digest then m.version else (m.version + 1) % 2 ^ 64;
  })
]

-- A descriptor with the deployment ID, rendered again
unfoldable pub render_deployment : Formats → Descriptor → String → Result FleetErr Deployment
render_deployment f d id = elim (f.render_descriptor (record d { id = id })) [
  | none ↦ err FleetErr.invalid_descriptor
  | some rendered ↦
      ok
        (record { id = id; descriptor = rendered; descriptor_digest = calculate_digest f rendered })
]

-- The body of a request as a valid descriptor
unfoldable pub read_valid : Formats → String → Result FleetErr Descriptor
read_valid f body = elim (f.read_descriptor body) [
  | none ↦ err FleetErr.invalid_descriptor
  | some d ↦ if not (f.is_valid d) then err FleetErr.invalid_descriptor else ok d
]

-- The answer of an operation that returns the deployment
unfoldable pub answer_with :
    Deployment → Result FleetErr (Unit {0}) × Tables → Result FleetErr Deployment × Tables
answer_with d answer = (elim answer.0 [ err e ↦ err e | ok _ ↦ ok d ], answer.1)

-- The callback of CreateDeployment
unfoldable pub add_deployment : Formats → Deployment → Manifest → Result FleetErr Manifest
unfolding rebuild_manifest_bundle
add_deployment f d m =
    rebuild_manifest_bundle f (record m { deployments = m.deployments ++ d ∷ [] })

-- CreateDeployment
unfoldable pub create_deployment :
    Formats → String → String → String → Tables → Result FleetErr Deployment × Tables
unfolding read_valid render_deployment add_deployment answer_with
create_deployment f uuid device_id body t = elim (read_valid f body) [
  | err e ↦ (err e, t)
  | ok descriptor ↦ elim (render_deployment f descriptor uuid) [
    | err e ↦ (err e, t)
    | ok d ↦ answer_with d (upsert_deployments device_id (add_deployment f d) t)
  ]
]

-- The first deployment with the ID of `d` becomes `d`.
unfoldable pub replace_first : Deployment → List Deployment → List Deployment
replace_first d [] = []
replace_first d (x ∷ xs) =
    let rest = replace_first d xs in if x.id == d.id then d ∷ xs else x ∷ rest

-- The first deployment with the ID is left out.
unfoldable pub remove_first : String → List Deployment → List Deployment
remove_first id [] = []
remove_first id (x ∷ xs) = let rest = remove_first id xs in if x.id == id then xs else x ∷ rest

-- The callback of UpdateDeployment
unfoldable pub replace_deployment : Formats → Deployment → Manifest → Result FleetErr Manifest
unfolding rebuild_manifest_bundle replace_first
replace_deployment f d m =
    if any (has_id d.id) m.deployments
    then rebuild_manifest_bundle f (record m { deployments = replace_first d m.deployments })
    else err FleetErr.deployment_not_found

-- UpdateDeployment
unfoldable pub update_deployment :
    Formats → String → String → String → Tables → Result FleetErr Deployment × Tables
unfolding read_valid render_deployment replace_deployment answer_with
update_deployment f device_id deployment_id body t = elim (read_valid f body) [
  | err e ↦ (err e, t)
  | ok descriptor ↦
      if not (descriptor.id == "") && not (descriptor.id == deployment_id)
      then (err FleetErr.invalid_descriptor, t)
      else elim (render_deployment f descriptor deployment_id) [
        | err e ↦ (err e, t)
        | ok d ↦ answer_with d (upsert_deployments device_id (replace_deployment f d) t)
      ]
]

-- The callback of DeleteDeployment
unfoldable pub drop_deployment : Formats → String → Manifest → Result FleetErr Manifest
unfolding rebuild_manifest_bundle remove_first
drop_deployment f id m =
    if any (has_id id) m.deployments
    then rebuild_manifest_bundle f (record m { deployments = remove_first id m.deployments })
    else err FleetErr.deployment_not_found

-- DeleteDeployment
unfoldable pub delete_deployment :
    Formats → String → String → Tables → Result FleetErr (Unit {0}) × Tables
unfolding drop_deployment
delete_deployment f device_id deployment_id t =
    upsert_deployments device_id (drop_deployment f deployment_id) t

-- GetBundle
unfoldable pub get_bundle : String → String → Tables → Result FleetErr String
get_bundle device_id digest t = elim (get_stored_bundle device_id digest t) [
  | err e ↦ err e
  | ok archive ↦ if archive == "" then err FleetErr.bundle_not_found else ok archive
]
