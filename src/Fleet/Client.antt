-- ===== src/Fleet/Client.antt =====
-- completed/sup_desired_state_via_manifest_api/cmd/wfm-client/main.go: the device's side. What the
-- server answers and what gzip, tar and yaml.v3 read are arguments; the log and the signals are left
-- out.
pub mod Resolving
pub mod Unlisted
pub mod Convergence
pub mod Rollback
pub mod Retrying
use specification_enhancemen.Prelude.{
  ℕ, String, ◌==◌, Bool, true, ◌&&◌, ◌||◌, not, Option, none, some, List, [], ◌∷◌, ◌++◌,
  if◌then◌else◌, eqb, leb, find, any, select, modify, length,
}
use specification_enhancemen.Fleet.Fetching.{
  DeploymentLink, ManifestResponse, Resolved, Server, resolve_url, is_supported_digest,
  fetch_deployment, is_resolved, put_resolved, fetch_bundle_once,
}

-- deploymentCacheEntry, under its deployment ID
pub record CacheEntry : Type 0 where
  pub deployment_id : String
  pub digest : String
  pub application_id : String
  pub name : String

-- state; the map is the list of its entries.
pub record State : Type 0 where
  pub manifest_etag : String
  pub manifest_version : ℕ
  pub deployments : List CacheEntry
  pub bundle_fetched : Bool

-- What fetchManifest returns: an error, no change (304), the manifest with its ETag
pub data ManifestAnswer : Type 0 where
  failed not_modified : ManifestAnswer
  changed : ManifestResponse → String → ManifestAnswer

abbrev pub is_entry : String → CacheEntry → Bool
is_entry id e = e.deployment_id == id

abbrev pub is_link : String → DeploymentLink → Bool
is_link id l = l.deployment_id == id

-- A descriptor that is fetched by itself
unfoldable pub fetch_link : Server → String → DeploymentLink → List Resolved → List Resolved
unfolding put_resolved
fetch_link s base d resolved = elim (fetch_deployment s (resolve_url base d.url) d.digest) [
  | none ↦ resolved
  | some pd ↦
      put_resolved
        (record { deployment_id = d.deployment_id; digest = d.digest; descriptor = some pd })
        resolved
]

-- The body of the loop of pollOnce over the deployments
unfoldable pub resolve_link :
    Server → String → List CacheEntry → DeploymentLink → List Resolved → List Resolved
unfolding put_resolved fetch_link
resolve_link s base cached d resolved =
    if not (is_supported_digest d.digest)
    then resolved
    else elim (find (is_resolved d.deployment_id) resolved) [
      | some e ↦ put_resolved (record e { digest = d.digest }) resolved
      | none ↦ elim (find (is_entry d.deployment_id) cached) [
        | none ↦ fetch_link s base d resolved
        | some current ↦
            if current.digest == d.digest
            then put_resolved
                (record { deployment_id = d.deployment_id; digest = d.digest; descriptor = none })
                resolved
            else fetch_link s base d resolved
      ]
    ]

unfoldable pub resolve_links :
    Server → String → List CacheEntry → List DeploymentLink → List Resolved → List Resolved
unfolding resolve_link
resolve_links s base cached [] resolved = resolved
resolve_links s base cached (d ∷ ds) resolved =
    resolve_links s base cached ds (resolve_link s base cached d resolved)

-- The entry that applyDeploymentChange makes of a desired descriptor
unfoldable pub next_entry : Resolved → Option CacheEntry → CacheEntry
next_entry r existing = elim r.descriptor [
  | some d ↦ record {
    deployment_id = r.deployment_id;
    digest = r.digest;
    application_id = d.application_id;
    name = d.name;
  }
  | none ↦ elim existing [
    | some e ↦ record e { deployment_id = r.deployment_id; digest = r.digest }
    | none ↦ record {
      deployment_id = r.deployment_id;
      digest = r.digest;
      application_id = "";
      name = "";
    }
  ]
]

-- applyDeploymentChange of a desired descriptor
unfoldable pub apply_change : Resolved → List CacheEntry → List CacheEntry
unfolding next_entry
apply_change r entries = elim (find (is_entry r.deployment_id) entries) [
  | none ↦ entries ++ next_entry r none ∷ []
  | some e ↦
      if e.digest == r.digest
      then entries
      else modify (is_entry r.deployment_id) (λ _. next_entry r (some e)) entries
]

unfoldable pub apply_changes : List Resolved → List CacheEntry → List CacheEntry
unfolding apply_change
apply_changes [] entries = entries
apply_changes (r ∷ rs) entries = apply_changes rs (apply_change r entries)

-- reconcileDeployments: a deployment that is neither desired nor resolved goes. The plan has at most
-- one change for a deployment, so that their order does not matter.
unfoldable pub reconcile_deployments :
    List DeploymentLink → List Resolved → List CacheEntry → List CacheEntry
unfolding apply_changes
reconcile_deployments links resolved entries = apply_changes resolved (
    select (λ e. any (is_link e.deployment_id) links || any (is_resolved e.deployment_id) resolved)
      entries)

-- Initial sync: what the bundle resolves, and whether it has been fetched
unfoldable pub initial_sync : Server → String → ManifestResponse → State → List Resolved × Bool
unfolding fetch_bundle_once
initial_sync s base m st =
    if not st.bundle_fetched && eqb (length st.deployments) 0
    then elim (fetch_bundle_once s base m.bundle m.deployments) [
      | none ↦ ([], st.bundle_fetched)
      | some entries ↦ (entries, true)
    ]
    else ([], st.bundle_fetched)

-- pollOnce of a manifest with a higher version
unfoldable pub take_manifest : Server → String → ManifestResponse → String → State → State
unfolding initial_sync resolve_links reconcile_deployments
take_manifest s base m etag st =
    let (bundled, fetched) = initial_sync s base m st in
    record {
      manifest_etag = etag;
      manifest_version = m.manifest_version;
      bundle_fetched = fetched;
      deployments =
          reconcile_deployments m.deployments
            (resolve_links s base st.deployments m.deployments bundled) st.deployments;
    }

-- pollOnce, with what fetchManifest returns
unfoldable pub poll_once : Server → String → ManifestAnswer → State → State
unfolding take_manifest
poll_once s base failed st = st
poll_once s base not_modified st = st
poll_once s base (changed m etag) st =
    if leb m.manifest_version st.manifest_version then st else take_manifest s base m etag st

-- run: polls in a row, with what the server answers in each of them
unfoldable pub poll_all : String → List (Server × ManifestAnswer) → State → State
unfolding poll_once
poll_all base [] st = st
poll_all base ((s, answer) ∷ polls) st = poll_all base polls (poll_once s base answer st)
