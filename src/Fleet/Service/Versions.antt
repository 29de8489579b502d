-- ===== src/Fleet/Service/Versions.antt =====
-- rebuildManifestBundle of service/deployment.go: the manifest versions that a device sees.
use specification_enhancemen.Prelude.{
  ℕ, ◌+◌, ◌%◌, ◌^◌, String, ◌==◌, not, ◌&&◌, false, [], ◌∷◌, ◌++◌, ◌≡◌, refl, arith, Result, ok,
  ◌⊎◌, ◌∙◌, Bool-cases, Option-cases, Result-cases, inl, inr, str_eq→≡,
}
use specification_enhancemen.Fleet.{FleetErr, Deployment, Manifest, Formats}
use specification_enhancemen.Fleet.Tables.{Tables, has_device}
use specification_enhancemen.Fleet.Repository.{current_manifest, store_manifest, upsert_deployments}
use specification_enhancemen.Fleet.Repository.Versions.{
  state_of, store_manifest-state_of, current_manifest-state_of,
}
use specification_enhancemen.Fleet.Service.{
  bundle_of, rebuild_manifest_bundle, render_deployment, read_valid, answer_with, add_deployment,
  create_deployment, replace_first, remove_first, replace_deployment, update_deployment,
  drop_deployment, delete_deployment,
}
use specification_enhancemen.Fleet.Service.Integrity.{Request, create, update, delete, step}

-- From one version and bundle digest to the next: nothing changes, or the digest changes and the
-- version is the next one.
pub Moves : ℕ × String → ℕ × String → Type 0
Moves before after =
    (after ≡ before) ⊎ (((after.1 == before.1) ≡ false) × (after.0 ≡ (before.0 + 1) % 2 ^ 64))

abbrev IsMoving : (Manifest → Result FleetErr Manifest) → Type 0
IsMoving callback =
    (m m' : Manifest)
    → callback m ≡ ok m'
    → Moves (m.version, m.bundle_digest) (m'.version, m'.bundle_digest)

rebuild_manifest_bundle-IsMoving : (f : Formats) → IsMoving (rebuild_manifest_bundle f)
unfolding rebuild_manifest_bundle Moves
rebuild_manifest_bundle-IsMoving f m m' e = elim (Option-cases (bundle_of f m.deployments)) [
  | inl g ↦ absurd (ground arith)
  | inr ((archive, digest), g) ↦ elim (Bool-cases (digest == m.bundle_digest)) [
    | inl same ↦ inl (ground (arith, str_eq→≡ digest m.bundle_digest same))
    | inr new ↦ inr (ground arith, ground arith)
  ]
]

add_deployment-IsMoving : (f : Formats) (d : Deployment) → IsMoving (add_deployment f d)
unfolding add_deployment
add_deployment-IsMoving f d m m' e =
    rebuild_manifest_bundle-IsMoving f (record m { deployments = m.deployments ++ d ∷ [] }) m' e

replace_deployment-IsMoving : (f : Formats) (d : Deployment) → IsMoving (replace_deployment f d)
unfolding replace_deployment
replace_deployment-IsMoving f d m m' e =
    rebuild_manifest_bundle-IsMoving f (record m { deployments = replace_first d m.deployments }) m'
      (ground arith)

drop_deployment-IsMoving : (f : Formats) (id : String) → IsMoving (drop_deployment f id)
unfolding drop_deployment
drop_deployment-IsMoving f id m m' e =
    rebuild_manifest_bundle-IsMoving f (record m { deployments = remove_first id m.deployments }) m'
      (ground arith)

same-Moves : (before after : ℕ × String) → after ≡ before → Moves before after
unfolding Moves
same-Moves before after e = inl e

upsert_deployments-Moves :
    (other device_id : String) (callback : Manifest → Result FleetErr Manifest) (t : Tables)
    → IsMoving callback
    → Moves
        (state_of other t.manifests)
        (state_of other (upsert_deployments device_id callback t).1.manifests)
unfolding upsert_deployments
upsert_deployments-Moves other device_id callback t moving =
    let loaded = current_manifest device_id t in
    let after = (upsert_deployments device_id callback t).1 in
    elim (Result-cases (callback loaded)) [
      | inr (x, e) ↦ let same : after ≡ t = ground arith in same-Moves _ _ (rw same refl)
      | inl (m, e) ↦ elim (Option-cases (store_manifest device_id loaded.deployments m t)) [
        | inl g ↦ let same : after ≡ t = ground arith in same-Moves _ _ (rw same refl)
        | inr (t₁, g) ↦ elim (Bool-cases (has_device device_id t)) [
          | inr lost ↦ let same : after ≡ t = ground arith in same-Moves _ _ (rw same refl)
          | inl known ↦
              let stored : after ≡ t₁ = ground arith in
              let moved = store_manifest-state_of other device_id loaded.deployments m t t₁ g in
              elim (Bool-cases (device_id == other)) [
                | inr apart ↦ same-Moves _ _ (rw stored (moved ∙ rw apart refl))
                | inl own ↦
                    let name : device_id ≡ other = str_eq→≡ device_id other own in
                    let start = current_manifest-state_of device_id t in
                    rw (stored, moved, own, ← name, start) (moving loaded m e)
              ]
        ]
      ]
    ]

-- Every request either leaves the version and the bundle digest of a device's manifest as they are,
-- or changes the digest and takes the next version, modulo 2 ^ 64; a device without a manifest counts
-- as having version 1 and no bundle.
pub step-Moves :
    (f : Formats) (device_id : String) (r : Request) (t : Tables)
    → Moves (state_of device_id t.manifests) (state_of device_id (step f r t).manifests)
unfolding step create_deployment update_deployment delete_deployment answer_with
step-Moves f other (create uuid device_id body) t = elim (Result-cases (read_valid f body)) [
  | inr (x, e) ↦
      let same : (create_deployment f uuid device_id body t).1 ≡ t = ground arith in
      same-Moves _ _ (rw same refl)
  | inl (descriptor, e) ↦ elim (Result-cases (render_deployment f descriptor uuid)) [
    | inr (x, g) ↦
        let same : (create_deployment f uuid device_id body t).1 ≡ t = ground arith in
        same-Moves _ _ (rw same refl)
    | inl (d, g) ↦
        let stored = upsert_deployments device_id (add_deployment f d) t in
        let same : (create_deployment f uuid device_id body t).1 ≡ stored.1 = ground arith in
        rw same (
          upsert_deployments-Moves other device_id (add_deployment f d) t
            (add_deployment-IsMoving f d))
  ]
]
step-Moves f other (update device_id deployment_id body) t =
    let after = (update_deployment f device_id deployment_id body t).1 in
    elim (Result-cases (read_valid f body)) [
      | inr (x, e) ↦ let same : after ≡ t = ground arith in same-Moves _ _ (rw same refl)
      | inl (descriptor, e) ↦ elim (Result-cases (render_deployment f descriptor deployment_id)) [
        | inr (x, g) ↦ let same : after ≡ t = ground arith in same-Moves _ _ (rw same refl)
        | inl (d, g) ↦
            let stored = upsert_deployments device_id (replace_deployment f d) t in
            let moved =
              upsert_deployments-Moves other device_id (replace_deployment f d) t
                (replace_deployment-IsMoving f d) in
            elim (Bool-cases (not (descriptor.id == "") && not (descriptor.id == deployment_id))) [
              | inl refused ↦ let same : after ≡ t = ground arith in same-Moves _ _ (rw same refl)
              | inr own ↦ let same : after ≡ stored.1 = ground arith in rw same moved
            ]
      ]
    ]
step-Moves f other (delete device_id deployment_id) t =
    upsert_deployments-Moves other device_id (drop_deployment f deployment_id) t
      (drop_deployment-IsMoving f deployment_id)
