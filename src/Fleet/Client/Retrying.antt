-- ===== src/Fleet/Client/Retrying.antt =====
-- pollOnce of cmd/wfm-client/main.go: a deployment whose descriptor cannot be fetched.
use specification_enhancemen.Prelude.{
  ◌<◌, ◌≤◌, String, Bool, true, false, ◌||◌, none, List, [], ◌∷◌, ◌++◌, ◌≡◌, refl, arith, ap, ◌∙◌,
  All, any, select, find-none, find-any,
}
use specification_enhancemen.Fleet.Fetching.{
  DeploymentLink, ManifestResponse, Resolved, Server, resolve_url, fetch_deployment, is_resolved,
}
use specification_enhancemen.Fleet.Client.{
  CacheEntry, State, ManifestAnswer, changed, is_entry, is_link, fetch_link, resolve_link,
  resolve_links, reconcile_deployments, initial_sync, take_manifest, poll_once, poll_all,
}
use specification_enhancemen.Fleet.Client.Unlisted.{resolve_links-none}
use specification_enhancemen.Fleet.Client.Rollback.{IsNotNewer, poll_all-settled}
use specification_enhancemen.Fleet.Client.Convergence.{reconciled, find-apply_changes_none}

any-select :
    (p q : CacheEntry → Bool) (entries : List CacheEntry)
    → any p entries ≡ false
    → any p (select q entries) ≡ false
any-select p q [] h = refl
any-select p q (e ∷ entries) h = ground (arith, any-select p q entries)

resolve_link-failed :
    (s : Server) (base : String) (cached : List CacheEntry) (d : DeploymentLink)
    (rs : List Resolved)
    → any (is_entry d.deployment_id) cached ≡ false
    → any (is_resolved d.deployment_id) rs ≡ false
    → fetch_deployment s (resolve_url base d.url) d.digest ≡ none
    → resolve_link s base cached d rs ≡ rs
unfolding resolve_link fetch_link
resolve_link-failed s base cached d rs new unresolved failed =
    let miss = find-any (is_entry d.deployment_id) cached new in
    let unseen = find-any (is_resolved d.deployment_id) rs unresolved in
    ground (arith, miss, unseen, failed)

resolve_links-append :
    (s : Server) (base : String) (cached : List CacheEntry) (before after : List DeploymentLink)
    (rs : List Resolved)
    → resolve_links s base cached (before ++ after) rs
      ≡ resolve_links s base cached after (resolve_links s base cached before rs)
unfolding resolve_links
resolve_links-append s base cached [] after rs = refl
resolve_links-append s base cached (d ∷ before) after rs =
    resolve_links-append s base cached before after (resolve_link s base cached d rs)

-- The links around one that cannot be fetched resolve as they do without it.
resolve_links-failed :
    (s : Server) (base : String) (cached : List CacheEntry) (d : DeploymentLink)
    (before after : List DeploymentLink)
    → any (is_link d.deployment_id) before ≡ false
    → any (is_entry d.deployment_id) cached ≡ false
    → fetch_deployment s (resolve_url base d.url) d.digest ≡ none
    → resolve_links s base cached (before ++ d ∷ after) []
      ≡ resolve_links s base cached after (resolve_links s base cached before [])
unfolding resolve_links
resolve_links-failed s base cached d before after apart new failed =
    let rs = resolve_links s base cached before [] in
    let unresolved = resolve_links-none s base d.deployment_id cached before [] apart refl in
    resolve_links-append s base cached before (d ∷ after) []
    ∙ ap (resolve_links s base cached after)
        (resolve_link-failed s base cached d rs new unresolved failed)

reached :
    (s : Server) (base etag : String) (m : ManifestResponse) (st : State)
    → st.manifest_version < m.manifest_version
    → m.manifest_version ≤ (poll_once s base (changed m etag) st).manifest_version
unfolding poll_once take_manifest
reached s base etag m st newer = ground arith

-- After the initial sync, a new deployment that the manifest links once, at any place, and whose
-- descriptor cannot be fetched in the poll that takes the manifest does not run afterwards, however
-- often the device polls and whatever can be fetched then, as long as the server has no manifest with
-- a higher version.
pub poll_all-never_retried :
    (s : Server) (base etag : String) (m : ManifestResponse) (d : DeploymentLink)
    (before after : List DeploymentLink) (polls : List (Server × ManifestAnswer)) (st : State)
    → st.manifest_version < m.manifest_version
    → st.bundle_fetched ≡ true
    → m.deployments ≡ before ++ d ∷ after
    → any (is_link d.deployment_id) before ≡ false
    → any (is_link d.deployment_id) after ≡ false
    → any (is_entry d.deployment_id) st.deployments ≡ false
    → fetch_deployment s (resolve_url base d.url) d.digest ≡ none
    → All (IsNotNewer m.manifest_version) polls
    → any
        (is_entry d.deployment_id)
        (poll_all base polls (poll_once s base (changed m etag) st)).deployments
      ≡ false
unfolding resolve_links reconcile_deployments initial_sync
poll_all-never_retried s base etag m d before after polls st newer synced listed earlier later new
      failed old =
    let id = d.deployment_id in
    let next = poll_once s base (changed m etag) st in
    let settled =
      poll_all-settled base m.manifest_version polls next (reached s base etag m st newer) old in
    let start : (initial_sync s base m st).0 ≡ [] = ground (arith, synced) in
    let rs₀ = resolve_links s base st.deployments before [] in
    let rs = resolve_links s base st.deployments after rs₀ in
    let resolved : resolve_links s base st.deployments m.deployments (initial_sync s base m st).0
        ≡ rs =
      ap (resolve_links s base st.deployments m.deployments) start
      ∙ ap (λ l. resolve_links s base st.deployments l []) listed
      ∙ resolve_links-failed s base st.deployments d before after earlier new failed in
    let gone =
      resolve_links-none s base id st.deployments after rs₀ later
        (resolve_links-none s base id st.deployments before [] earlier refl) in
    let kept : CacheEntry → Bool =
      λ e. any (is_link e.deployment_id) m.deployments || any (is_resolved e.deployment_id) rs in
    let start_none =
      find-any (is_entry id) (select kept st.deployments)
        (any-select (is_entry id) kept st.deployments new) in
    rw (settled, reconciled s base etag m st newer, resolved)
      (find-none (is_entry id) _
        (find-apply_changes_none id rs (select kept st.deployments) gone ∙ start_none))
