-- ===== src/Fleet/Repository/Integrity.antt =====
-- UpsertDeployments of repository/deployment.go: that it keeps every blob under its digest.
use specification_enhancemen.Prelude.{
  String, ◌==◌, ◌||◌, eq_iff, none, some, List, [], ◌∷◌, ◌≡◌, arith, ok, ◌⊎◌, ◌∙◌, All, All-find,
  All-order_by, Bool-cases, Option-cases, Result, Result-cases, inl, inr, find, find-some, str_eq→≡,
  select, any, if◌then◌else◌,
}
use specification_enhancemen.Fleet.{FleetErr, Deployment, Manifest, Formats, calculate_digest}
use specification_enhancemen.Fleet.Tables.{
  DeploymentRow, DeploymentBlob, ManifestRow, Tables, has_device, has_blob_digest, join_blobs,
  by_id, get_deployments, insert_deployment_blob, upsert_deployment_row, upsert_manifest_row,
}
use specification_enhancemen.Fleet.Tables.Sound.{
  IsSound, delete_deployment_row-IsSound, insert_deployment_blob-IsSound,
  insert_bundle_blob-IsSound, upsert_deployment_row-IsSound, upsert_manifest_row-IsSound,
}
use specification_enhancemen.Fleet.Repository.{
  has_id, load_manifest, current_manifest, delete_gone, store_deployments, store_bundle,
  store_manifest, upsert_deployments,
}

module _ (f : Formats) where
  -- The descriptor has the digest that the deployment names.
  unfoldable pub IsAddressed : Deployment → Type 0
  IsAddressed d = calculate_digest f d.descriptor ≡ d.descriptor_digest

  join_blobs-IsAddressed :
      (rows : List DeploymentRow) (blobs : List DeploymentBlob)
      → All (λ b. calculate_digest f b.descriptor ≡ b.digest) blobs
      → All IsAddressed (join_blobs rows blobs)
  unfolding join_blobs IsAddressed
  join_blobs-IsAddressed [] blobs h = tt
  join_blobs-IsAddressed (r ∷ rows) blobs h =
      let rest = join_blobs-IsAddressed rows blobs h in
      elim (Option-cases (find (has_blob_digest r.descriptor_digest) blobs)) [
        | inl e ↦ rw (e, All) rest
        | inr (b, e) ↦
            let own : b.digest ≡ r.descriptor_digest =
              str_eq→≡ b.digest r.descriptor_digest (find-some _ blobs b e) in
            rw (e, All) (All-find _ _ blobs b h e ∙ own, rest)
      ]

  pub get_deployments-IsAddressed :
      (device_id : String) (t : Tables)
      → IsSound f t
      → All IsAddressed (get_deployments device_id t)
  unfolding get_deployments
  get_deployments-IsAddressed device_id t h =
      All-order_by IsAddressed by_id
        (join_blobs (select (λ r. r.device_id == device_id) t.deployments) t.deployment_blobs)
        (join_blobs-IsAddressed _ t.deployment_blobs h.blobs)

  pub current_manifest-IsAddressed :
      (device_id : String) (t : Tables)
      → IsSound f t
      → All IsAddressed (current_manifest device_id t).deployments
  unfolding current_manifest load_manifest
  current_manifest-IsAddressed device_id t h =
      ground (arith, get_deployments-IsAddressed device_id t h)

  delete_gone-IsSound :
      (device_id : String) (original current : List Deployment) (t : Tables)
      → IsSound f t
      → IsSound f (delete_gone device_id original current t)
  unfolding delete_gone
  delete_gone-IsSound device_id [] current t h = h
  delete_gone-IsSound device_id (d ∷ original) current t h =
      let rest = delete_gone-IsSound device_id original current t h in
      elim (Bool-cases (any (has_id d.id) current)) [
        | inl e ↦ rw e rest
        | inr e ↦ rw e (delete_deployment_row-IsSound f device_id d.id _ rest)
      ]

  store_deployments-IsSound :
      (device_id : String) (ds : List Deployment) (t t₁ : Tables)
      → IsSound f t
      → All IsAddressed ds
      → store_deployments device_id ds t ≡ some t₁
      → IsSound f t₁
  unfolding store_deployments IsAddressed
  store_deployments-IsSound device_id [] t t₁ h a e = let same : t₁ ≡ t = ground arith in rw same h
  store_deployments-IsSound device_id (d ∷ ds) t t₁ h a e =
      let row : DeploymentRow = record {
        id = d.id;
        descriptor_digest = d.descriptor_digest;
        device_id = device_id;
      } in
      let stored = insert_deployment_blob d.descriptor_digest d.descriptor t in
      let kept = insert_deployment_blob-IsSound f d.descriptor_digest d.descriptor t h a.0 in
      elim (Option-cases (upsert_deployment_row row stored)) [
        | inl g ↦ absurd (ground arith)
        | inr (t₂, g) ↦
            store_deployments-IsSound device_id ds t₂ t₁
              (upsert_deployment_row-IsSound f row stored t₂ kept g) a.1 (ground arith)
      ]

  -- What a callback of the service leaves: deployments and a bundle under their digests
  pub record IsFaithful (m : Manifest) : Type 0 where
    pub addressed : All IsAddressed m.deployments
    pub bundled : (m.bundle_digest ≡ "") ⊎ (calculate_digest f m.bundle_archive ≡ m.bundle_digest)

  store_bundle-IsSound :
      (m : Manifest) (t : Tables) → IsSound f t → IsFaithful m → IsSound f (store_bundle m t)
  unfolding store_bundle
  store_bundle-IsSound m t h faithful =
      elim (Bool-cases (m.bundle_archive == "" || m.bundle_digest == "")) [
        | inl skip ↦ rw skip h
        | inr keep ↦ rw keep (
            insert_bundle_blob-IsSound f m.bundle_digest m.bundle_archive t h
              (elim faithful.bundled [
                | inl blank ↦ absurd (ground (arith, eq_iff m.bundle_digest ""))
                | inr e ↦ e
              ])
              (ground arith))
      ]

  store_manifest-IsSound :
      (device_id : String) (original : List Deployment) (m : Manifest) (t t₁ : Tables)
      → IsSound f t
      → IsFaithful m
      → store_manifest device_id original m t ≡ some t₁
      → IsSound f t₁
  unfolding store_manifest
  store_manifest-IsSound device_id original m t t₁ h faithful e =
      let row : ManifestRow = record {
        device_id = device_id;
        version = m.version;
        bundle_digest = if m.bundle_digest == "" then none else some m.bundle_digest;
      } in
      let gone = delete_gone device_id original m.deployments t in
      let bundled =
        store_bundle-IsSound m gone (delete_gone-IsSound device_id original m.deployments t h)
          faithful in
      elim (Option-cases (upsert_manifest_row row (store_bundle m gone))) [
        | inl g ↦ absurd (ground arith)
        | inr (t₂, g) ↦
            store_deployments-IsSound device_id m.deployments t₂ t₁
              (upsert_manifest_row-IsSound f row (store_bundle m gone) t₂ bundled g)
              faithful.addressed (ground arith)
      ]

  -- A callback that leaves faithful manifests keeps the tables sound.
  pub upsert_deployments-IsSound :
      (device_id : String) (update : Manifest → Result FleetErr Manifest) (t : Tables)
      → IsSound f t
      → ((m m' : Manifest) → All IsAddressed m.deployments → update m ≡ ok m' → IsFaithful m')
      → IsSound f (upsert_deployments device_id update t).1
  unfolding upsert_deployments
  upsert_deployments-IsSound device_id update t h good =
      let loaded = current_manifest device_id t in
      elim (Result-cases (update loaded)) [
        | inr (x, e) ↦
            let same : (upsert_deployments device_id update t).1 ≡ t = ground arith in rw same h
        | inl (m, e) ↦ elim (Option-cases (store_manifest device_id loaded.deployments m t)) [
          | inl g ↦
              let same : (upsert_deployments device_id update t).1 ≡ t = ground arith in rw same h
          | inr (t₁, g) ↦ elim (Bool-cases (has_device device_id t)) [
            | inr lost ↦
                let same : (upsert_deployments device_id update t).1 ≡ t = ground arith in rw same h
            | inl known ↦
                let same : (upsert_deployments device_id update t).1 ≡ t₁ = ground arith in
                rw same (
                  store_manifest-IsSound device_id loaded.deployments m t t₁ h
                    (good loaded m (current_manifest-IsAddressed device_id t h) e) g)
          ]
        ]
      ]
