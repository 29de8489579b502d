-- ===== src/Fleet/Tables/Sound.antt =====
-- The statements of db/query.sql.go: that every blob stays under its digest and every manifest with
-- its bundle.
use specification_enhancemen.Prelude.{
  String, ◌==◌, true, false, Option, none, some, List, [], ◌∷◌, ◌++◌, ◌≡◌, refl, arith, All,
  All-append, All-map, All-modify, modify, Bool-cases, inl, inr, any, any-append,
}
use specification_enhancemen.Fleet.{Formats, calculate_digest}
use specification_enhancemen.Fleet.Tables.{
  DeploymentRow, ManifestRow, BundleBlob, Tables, has_bundle, has_bundle_digest, has_blob_digest,
  is_of_device, delete_deployment_row, insert_deployment_blob, insert_bundle_blob,
  upsert_deployment_row, upsert_manifest_row,
}

has_bundle-append :
    (digest : Option String) (bundles more : List BundleBlob)
    → has_bundle digest bundles ≡ true
    → has_bundle digest (bundles ++ more) ≡ true
unfolding has_bundle
has_bundle-append none bundles more h = refl
has_bundle-append (some digest) bundles more h =
    ground (arith, any-append (has_bundle_digest digest) bundles more)

module _ (f : Formats) where
  pub record IsSound (t : Tables) : Type 0 where
    pub blobs : All (λ b. calculate_digest f b.descriptor ≡ b.digest) t.deployment_blobs
    pub bundles : All (λ b. calculate_digest f b.archive ≡ b.digest) t.bundle_blobs
    pub inked : All (λ b. (b.archive == "") ≡ false) t.bundle_blobs
    pub linked : All (λ m. has_bundle m.bundle_digest t.bundle_blobs ≡ true) t.manifests

  pub delete_deployment_row-IsSound :
      (device_id id : String) (t : Tables)
      → IsSound t
      → IsSound (delete_deployment_row device_id id t)
  unfolding delete_deployment_row has_bundle
  delete_deployment_row-IsSound device_id id t h = record {
    blobs = h.blobs;
    bundles = h.bundles;
    inked = h.inked;
    linked = h.linked;
  }

  pub insert_deployment_blob-IsSound :
      (digest descriptor : String) (t : Tables)
      → IsSound t
      → calculate_digest f descriptor ≡ digest
      → IsSound (insert_deployment_blob digest descriptor t)
  unfolding insert_deployment_blob
  insert_deployment_blob-IsSound digest descriptor t h e =
      elim (Bool-cases (any (has_blob_digest digest) t.deployment_blobs)) [
        | inl there ↦ rw there h
        | inr new ↦ rw new (record {
          blobs = All-append _ t.deployment_blobs _ h.blobs (e, tt);
          bundles = h.bundles;
          inked = h.inked;
          linked = h.linked;
        })
      ]

  pub insert_bundle_blob-IsSound :
      (digest archive : String) (t : Tables)
      → IsSound t
      → calculate_digest f archive ≡ digest
      → (archive == "") ≡ false
      → IsSound (insert_bundle_blob digest archive t)
  unfolding insert_bundle_blob
  insert_bundle_blob-IsSound digest archive t h e inked =
      elim (Bool-cases (any (has_bundle_digest digest) t.bundle_blobs)) [
        | inl there ↦ rw there h
        | inr new ↦ rw new (record {
          blobs = h.blobs;
          bundles = All-append _ t.bundle_blobs _ h.bundles (e, tt);
          inked = All-append _ t.bundle_blobs _ h.inked (inked, tt);
          linked =
              All-map _ _ (λ m l. has_bundle-append m.bundle_digest t.bundle_blobs _ l) t.manifests
                h.linked;
        })
      ]

  pub upsert_deployment_row-IsSound :
      (r : DeploymentRow) (t t₁ : Tables)
      → IsSound t
      → upsert_deployment_row r t ≡ some t₁
      → IsSound t₁
  unfolding upsert_deployment_row
  upsert_deployment_row-IsSound r t t₁ h e =
      let blobs : t₁.deployment_blobs ≡ t.deployment_blobs = ground arith in
      let bundles : t₁.bundle_blobs ≡ t.bundle_blobs = ground arith in
      let manifests : t₁.manifests ≡ t.manifests = ground arith in
      record {
        blobs = rw blobs h.blobs;
        bundles = rw bundles h.bundles;
        inked = rw bundles h.inked;
        linked = rw (bundles, manifests) h.linked;
      }

  pub upsert_manifest_row-IsSound :
      (m : ManifestRow) (t t₁ : Tables) → IsSound t → upsert_manifest_row m t ≡ some t₁ → IsSound t₁
  unfolding upsert_manifest_row
  upsert_manifest_row-IsSound m t t₁ h e =
      let blobs : t₁.deployment_blobs ≡ t.deployment_blobs = ground arith in
      let bundles : t₁.bundle_blobs ≡ t.bundle_blobs = ground arith in
      let there : has_bundle m.bundle_digest t.bundle_blobs ≡ true = ground arith in
      let linked : All (λ x. has_bundle x.bundle_digest t.bundle_blobs ≡ true) t₁.manifests =
        elim (Bool-cases (any (is_of_device m.device_id) t.manifests)) [
          | inl old ↦
              let new_row : ManifestRow → ManifestRow =
                λ x. record x { version = m.version; bundle_digest = m.bundle_digest } in
              let changed : t₁.manifests ≡ modify (is_of_device m.device_id) new_row t.manifests =
                ground arith in
              rw changed (
                All-modify _ (is_of_device m.device_id) new_row (λ x l. there) t.manifests h.linked)
          | inr new ↦
              let added : t₁.manifests ≡ t.manifests ++ m ∷ [] = ground arith in
              rw added (All-append _ t.manifests _ h.linked (there, tt))
        ] in
      record {
        blobs = rw blobs h.blobs;
        bundles = rw bundles h.bundles;
        inked = rw bundles h.inked;
        linked = rw bundles linked;
      }
