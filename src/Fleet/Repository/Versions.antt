-- ===== src/Fleet/Repository/Versions.antt =====
-- UpsertDeployments of repository/deployment.go: the version and the bundle digest of each manifest.
use specification_enhancemen.Prelude.{
  ℕ, String, ◌==◌, none, some, List, [], ◌∷◌, ◌++◌, ◌≡◌, refl, arith, ◌∙◌, Bool-cases, Option-cases,
  inl, inr, find, any, modify, find-some, find-none, find-any, any-find, any-modify, find-modify,
  find-append, find-append_some, str_eq→≡, if◌then◌else◌, eq_iff,
}
use specification_enhancemen.Fleet.{Deployment, Manifest}
use specification_enhancemen.Fleet.Tables.{
  ManifestRow, Tables, is_of_device, get_manifest_row, delete_deployment_row,
  insert_deployment_blob, insert_bundle_blob, upsert_deployment_row, upsert_manifest_row,
}
use specification_enhancemen.Fleet.Repository.{
  or_empty, load_manifest, current_manifest, delete_gone, store_deployments, store_bundle,
  store_manifest,
}

-- The version and the bundle digest of a device
unfoldable pub state_of : String → List ManifestRow → ℕ × String
state_of device_id rows = elim (find (is_of_device device_id) rows) [
  | none ↦ (1, "")
  | some r ↦ (r.version, or_empty r.bundle_digest)
]

upsert_manifest_row-state_of :
    (other : String) (m : ManifestRow) (t t₁ : Tables)
    → upsert_manifest_row m t ≡ some t₁
    → state_of other t₁.manifests ≡ (
        if m.device_id == other
        then (m.version, or_empty m.bundle_digest)
        else state_of other t.manifests)
unfolding upsert_manifest_row state_of
upsert_manifest_row-state_of other m t t₁ e =
    elim (Bool-cases (any (is_of_device m.device_id) t.manifests)) [
      | inr new ↦
          let added : t₁.manifests ≡ t.manifests ++ m ∷ [] = ground arith in
          elim (Option-cases (find (is_of_device other) t.manifests)) [
            | inl miss ↦
                let gone = find-none (is_of_device other) t.manifests miss in
                let found = find-append (is_of_device other) t.manifests (m ∷ []) gone in
                ground (arith, added, found, miss)
            | inr (r, hit) ↦
                let kept = find-append_some (is_of_device other) t.manifests (m ∷ []) r hit in
                let there = any-find (is_of_device other) t.manifests r hit in
                ground (arith, added, kept, hit, there, eq_iff m.device_id other)
          ]
      | inl old ↦
          let new_row : ManifestRow → ManifestRow =
            λ x. record x { version = m.version; bundle_digest = m.bundle_digest } in
          let changed : t₁.manifests ≡ modify (is_of_device m.device_id) new_row t.manifests =
            ground arith in
          elim (Option-cases (find (is_of_device other) t.manifests)) [
            | inl miss ↦
                let gone = find-none (is_of_device other) t.manifests miss in
                let still =
                  any-modify (is_of_device other) (is_of_device m.device_id) new_row (λ x. refl)
                    t.manifests in
                let lost =
                  find-any (is_of_device other)
                    (modify (is_of_device m.device_id) new_row t.manifests) (still ∙ gone) in
                ground (arith, changed, lost, miss, gone, eq_iff m.device_id other)
            | inr (r, hit) ↦
                let found =
                  find-modify (is_of_device other) (is_of_device m.device_id) new_row (λ x. refl)
                    t.manifests r hit in
                let own : r.device_id ≡ other =
                  str_eq→≡ r.device_id other (find-some (is_of_device other) t.manifests r hit) in
                ground (
                  arith,
                  changed,
                  found,
                  hit,
                  own,
                  eq_iff m.device_id other,
                  eq_iff r.device_id m.device_id,
                )
          ]
    ]

delete_gone-manifests :
    (device_id : String) (original current : List Deployment) (t : Tables)
    → (delete_gone device_id original current t).manifests ≡ t.manifests
unfolding delete_gone delete_deployment_row
delete_gone-manifests device_id [] current t = refl
delete_gone-manifests device_id (d ∷ original) current t =
    ground (arith, delete_gone-manifests device_id original current t)

store_bundle-manifests : (m : Manifest) (t : Tables) → (store_bundle m t).manifests ≡ t.manifests
unfolding store_bundle insert_bundle_blob
store_bundle-manifests m t = ground arith

insert_deployment_blob-manifests :
    (digest descriptor : String) (t : Tables)
    → (insert_deployment_blob digest descriptor t).manifests ≡ t.manifests
unfolding insert_deployment_blob
insert_deployment_blob-manifests digest descriptor t = ground arith

store_deployments-manifests :
    (device_id : String) (ds : List Deployment) (t t₁ : Tables)
    → store_deployments device_id ds t ≡ some t₁
    → t₁.manifests ≡ t.manifests
unfolding store_deployments upsert_deployment_row
store_deployments-manifests device_id [] t t₁ e = ground arith
store_deployments-manifests device_id (d ∷ ds) t t₁ e =
    let stored = insert_deployment_blob d.descriptor_digest d.descriptor t in
    let kept = insert_deployment_blob-manifests d.descriptor_digest d.descriptor t in
    elim (Option-cases (
      upsert_deployment_row
        (record { id = d.id; descriptor_digest = d.descriptor_digest; device_id = device_id })
        stored)) [
          | inl g ↦ absurd (ground arith)
          | inr (t₂, g) ↦
              let rest = store_deployments-manifests device_id ds t₂ t₁ (ground arith) in
              let same : t₂.manifests ≡ stored.manifests = ground arith in rest ∙ same ∙ kept
        ]

pub store_manifest-state_of :
    (other device_id : String) (original : List Deployment) (m : Manifest) (t t₁ : Tables)
    → store_manifest device_id original m t ≡ some t₁
    → state_of other t₁.manifests
      ≡ (if device_id == other then (m.version, m.bundle_digest) else state_of other t.manifests)
unfolding store_manifest
store_manifest-state_of other device_id original m t t₁ e =
    let row : ManifestRow = record {
      device_id = device_id;
      version = m.version;
      bundle_digest = if m.bundle_digest == "" then none else some m.bundle_digest;
    } in
    let gone = delete_gone device_id original m.deployments t in
    let before : (store_bundle m gone).manifests ≡ t.manifests =
      store_bundle-manifests m gone ∙ delete_gone-manifests device_id original m.deployments t in
    let name : or_empty row.bundle_digest ≡ m.bundle_digest =
      ground (arith, eq_iff m.bundle_digest "") in
    elim (Option-cases (upsert_manifest_row row (store_bundle m gone))) [
      | inl g ↦ absurd (ground arith)
      | inr (t₂, g) ↦
          let moved = upsert_manifest_row-state_of other row (store_bundle m gone) t₂ g in
          let kept = store_deployments-manifests device_id m.deployments t₂ t₁ (ground arith) in
          rw kept (moved ∙ rw (name, before) refl)
    ]

pub current_manifest-state_of :
    (device_id : String) (t : Tables)
    → state_of device_id t.manifests
      ≡ ((current_manifest device_id t).version, (current_manifest device_id t).bundle_digest)
unfolding current_manifest load_manifest state_of get_manifest_row
current_manifest-state_of device_id t = ground arith
