-- ===== src/Fleet/Service/Served.antt =====
-- What GetDeploymentManifest, GetDeployment and GetBundle of service/deployment.go answer to a device.
use specification_enhancemen.Prelude.{
  String, ◌==◌, true, false, some, List, [], ◌∷◌, ◌≡◌, refl, arith, ok, ◌⊎◌, ◌∙◌, All, All-find,
  All-map, All-order_by, Option-cases, inl, inr, find, find-some, select, str_eq→≡, find-none,
}
use specification_enhancemen.Fleet.{Deployment, Manifest, Formats, calculate_digest}
use specification_enhancemen.Fleet.Tables.{
  DeploymentRow, DeploymentBlob, Tables, has_device, has_blob_digest, has_bundle_digest, has_bundle,
  join_blobs, by_id, get_deployments, get_deployment_blob, get_bundle_blob, get_manifest_row,
  is_of_device,
}
use specification_enhancemen.Fleet.Tables.Sound.{IsSound}
use specification_enhancemen.Fleet.Repository.{
  or_empty, load_manifest, get_manifest, get_deployment, get_stored_bundle,
}
use specification_enhancemen.Fleet.Service.{get_bundle}
use specification_enhancemen.Fleet.Service.Integrity.{Request, run, run-IsSound}

-- The blob of a listed deployment
abbrev HasBlob : List DeploymentBlob → Deployment → Type 0
HasBlob blobs d =
    (b : DeploymentBlob) × (find (has_blob_digest d.descriptor_digest) blobs ≡ some b)
    × (b.descriptor ≡ d.descriptor)

join_blobs-HasBlob :
    (rows : List DeploymentRow) (blobs : List DeploymentBlob)
    → All (HasBlob blobs) (join_blobs rows blobs)
unfolding join_blobs
join_blobs-HasBlob [] blobs = tt
join_blobs-HasBlob (r ∷ rows) blobs =
    let rest = join_blobs-HasBlob rows blobs in
    elim (Option-cases (find (has_blob_digest r.descriptor_digest) blobs)) [
      | inl e ↦ rw (e, All) rest
      | inr (b, e) ↦ rw (e, All) ((b, e, refl), rest)
    ]

get_deployments-HasBlob :
    (device_id : String) (t : Tables)
    → All (HasBlob t.deployment_blobs) (get_deployments device_id t)
unfolding get_deployments
get_deployments-HasBlob device_id t =
    All-order_by (HasBlob t.deployment_blobs) by_id
      (join_blobs (select (λ r. r.device_id == device_id) t.deployments) t.deployment_blobs)
      (join_blobs-HasBlob _ t.deployment_blobs)

-- The link of a listed deployment leads to its descriptor, which has the digest of the link.
abbrev pub IsServed : Formats → String → Tables → Deployment → Type 0
IsServed f device_id t d =
    (get_deployment device_id d.id d.descriptor_digest t ≡ ok d)
    × (calculate_digest f d.descriptor ≡ d.descriptor_digest)

-- The link to the bundle leads to an archive with the digest of the link.
abbrev pub IsBundleServed : Formats → String → Tables → String → Type 0
IsBundleServed f device_id t digest =
    (archive : String) × (get_bundle device_id digest t ≡ ok archive)
    × (calculate_digest f archive ≡ digest)

HasBlob-IsServed :
    (f : Formats) (device_id : String) (t : Tables)
    → IsSound f t
    → has_device device_id t ≡ true
    → (d : Deployment) → HasBlob t.deployment_blobs d
    → IsServed f device_id t d
unfolding get_deployment get_deployment_blob
HasBlob-IsServed f device_id t h known d (b, found, same) =
    let own : b.digest ≡ d.descriptor_digest =
      str_eq→≡ b.digest d.descriptor_digest (find-some _ t.deployment_blobs b found) in
    let whole = All-find _ _ t.deployment_blobs b h.blobs found in
    (rw (known, found, same, own) refl, rw (← same) (whole ∙ own))

has_bundle-IsBundleServed :
    (f : Formats) (device_id digest : String) (t : Tables)
    → IsSound f t
    → has_device device_id t ≡ true
    → has_bundle (some digest) t.bundle_blobs ≡ true
    → IsBundleServed f device_id t digest
unfolding get_bundle get_stored_bundle get_bundle_blob has_bundle
has_bundle-IsBundleServed f device_id digest t h known there =
    elim (Option-cases (find (has_bundle_digest digest) t.bundle_blobs)) [
      | inl miss ↦ absurd (ground (arith, find-none _ t.bundle_blobs miss))
      | inr (b, found) ↦
          let own : b.digest ≡ digest =
            str_eq→≡ b.digest digest (find-some _ t.bundle_blobs b found) in
          let whole = All-find _ _ t.bundle_blobs b h.bundles found in
          let inked : (b.archive == "") ≡ false = All-find _ _ t.bundle_blobs b h.inked found in
          (b.archive, ground (arith, known, found, inked), whole ∙ own)
    ]

get_manifest-IsServed :
    (f : Formats) (device_id : String) (m : Manifest) (t : Tables)
    → IsSound f t
    → get_manifest device_id t ≡ ok m
    → ((m.bundle_digest ≡ "") ⊎ IsBundleServed f device_id t m.bundle_digest)
      × All (IsServed f device_id t) m.deployments
unfolding get_manifest load_manifest get_manifest_row
get_manifest-IsServed f device_id m t h e =
    elim (Option-cases (find (is_of_device device_id) t.manifests)) [
      | inl miss ↦ absurd (ground arith)
      | inr (row, found) ↦
          let known : has_device device_id t ≡ true = ground arith in
          let linked = All-find _ _ t.manifests row h.linked found in
          let listed : m.deployments ≡ get_deployments device_id t = ground arith in
          let named : m.bundle_digest ≡ or_empty row.bundle_digest = ground arith in
          (
            elim (Option-cases row.bundle_digest) [
              | inl blank ↦ inl (rw (named, blank) refl)
              | inr (digest, some_digest) ↦ inr (
                  rw (named, some_digest)
                    (has_bundle-IsBundleServed f device_id digest t h known
                      (rw some_digest at linked)))
            ],
            rw listed (
                All-map _ _ (HasBlob-IsServed f device_id t h known) (get_deployments device_id t)
                  (get_deployments-HasBlob device_id t)),
          )
    ]

-- Whatever requests have been served from sound tables on, every link of a manifest that
-- GetDeploymentManifest returns leads to content: GetBundle returns an archive with the digest that
-- the manifest names, where it names one, and GetDeployment returns every deployment as listed, with
-- a descriptor of the listed digest.
pub run-IsServed :
    (f : Formats) (device_id : String) (rs : List Request) (m : Manifest) (t : Tables)
    → IsSound f t
    → get_manifest device_id (run f rs t) ≡ ok m
    → ((m.bundle_digest ≡ "") ⊎ IsBundleServed f device_id (run f rs t) m.bundle_digest)
      × All (IsServed f device_id (run f rs t)) m.deployments
run-IsServed f device_id rs m t h e =
    get_manifest-IsServed f device_id m (run f rs t) (run-IsSound f rs t h) e
