-- ===== src/Fleet/Client/Unlisted.antt =====
-- pollOnce of cmd/wfm-client/main.go: what a manifest does not list.
use specification_enhancemen.Prelude.{
  String, ◌==◌, false, Option, none, some, List, [], ◌∷◌, ◌≡◌, refl, arith, ◌∙◌, Bool-cases,
  Option-cases, inl, inr, find, any, modify, find-some, any-append, str_eq→≡,
}
use specification_enhancemen.Fleet.{calculate_digest}
use specification_enhancemen.Fleet.Fetching.{
  DeploymentLink, BundleLink, ManifestResponse, Resolved, ArchiveEntry, directory, file,
  deployment_of_digest, process_entry, process_entries, Server, resolve_url, is_supported_digest,
  fetch_deployment, is_resolved, put_resolved, fetch_bundle_once,
}
use specification_enhancemen.Fleet.Client.{
  CacheEntry, State, is_entry, is_link, fetch_link, resolve_link, resolve_links, initial_sync,
}

any-put_resolved_none :
    (id : String) (r : Resolved) (rs : List Resolved)
    → is_resolved id r ≡ false
    → any (is_resolved id) rs ≡ false
    → any (is_resolved id) (put_resolved r rs) ≡ false
unfolding put_resolved
any-put_resolved_none id r rs other h = elim (Bool-cases (any (is_resolved r.deployment_id) rs)) [
  | inl e ↦ rw e (replaced rs h)
  | inr e ↦ rw e (any-append (is_resolved id) rs (r ∷ []) ∙ ground (arith, h, other))
]
  where
    replaced :
        (xs : List Resolved)
        → any (is_resolved id) xs ≡ false
        → any (is_resolved id) (modify (is_resolved r.deployment_id) (λ _. r) xs) ≡ false
    replaced [] g = g
    replaced (x ∷ xs) g = ground (arith, replaced xs, other)

-- A deployment that the manifest does not list is not resolved.
fetch_link-none :
    (s : Server) (base id : String) (d : DeploymentLink) (rs : List Resolved)
    → is_link id d ≡ false
    → any (is_resolved id) rs ≡ false
    → any (is_resolved id) (fetch_link s base d rs) ≡ false
unfolding fetch_link
fetch_link-none s base id d rs other h =
    elim (Option-cases (fetch_deployment s (resolve_url base d.url) d.digest)) [
      | inl e ↦ rw (e, fetch_link) h
      | inr (pd, e) ↦ rw (e, fetch_link) (any-put_resolved_none id _ rs other h)
    ]

resolve_link-none :
    (s : Server) (base id : String) (cached : List CacheEntry) (d : DeploymentLink)
    (rs : List Resolved)
    → is_link id d ≡ false
    → any (is_resolved id) rs ≡ false
    → any (is_resolved id) (resolve_link s base cached d rs) ≡ false
unfolding resolve_link
resolve_link-none s base id cached d rs other h = elim (Bool-cases (is_supported_digest d.digest)) [
  | inr unknown ↦ rw unknown h
  | inl known ↦ elim (Option-cases (find (is_resolved d.deployment_id) rs)) [
    | inr (e, there) ↦
        let own : e.deployment_id ≡ d.deployment_id =
          str_eq→≡ e.deployment_id d.deployment_id
            (find-some (is_resolved d.deployment_id) rs e there) in
        rw (known, there)
          (any-put_resolved_none id (record e { digest = d.digest }) rs (rw own other) h)
    | inl miss ↦
        let fetched = fetch_link-none s base id d rs other h in
        elim (Option-cases (find (is_entry d.deployment_id) cached)) [
          | inl new ↦ rw (known, miss, new) fetched
          | inr (current, old) ↦ elim (Bool-cases (current.digest == d.digest)) [
            | inr stale ↦ rw (known, miss, old, stale) fetched
            | inl same ↦ rw (known, miss, old, same) (any-put_resolved_none id _ rs other h)
          ]
        ]
  ]
]

pub resolve_links-none :
    (s : Server) (base id : String) (cached : List CacheEntry) (ds : List DeploymentLink)
    (rs : List Resolved)
    → any (is_link id) ds ≡ false
    → any (is_resolved id) rs ≡ false
    → any (is_resolved id) (resolve_links s base cached ds rs) ≡ false
unfolding resolve_links
resolve_links-none s base id cached [] rs other h = h
resolve_links-none s base id cached (d ∷ ds) rs other h =
    resolve_links-none s base id cached ds _ (ground arith)
      (resolve_link-none s base id cached d rs (ground arith) h)

deployment_of_digest-listed :
    (digest id id' : String) (links : List DeploymentLink)
    → deployment_of_digest digest links ≡ some id'
    → any (is_link id) links ≡ false
    → (id' == id) ≡ false
unfolding deployment_of_digest
deployment_of_digest-listed digest id id' [] e h = absurd (ground arith)
deployment_of_digest-listed digest id id' (l ∷ links) e h =
    elim (Option-cases (deployment_of_digest digest links)) [
      | inl miss ↦ ground arith
      | inr (id'', hit) ↦
          deployment_of_digest-listed digest id id' links (ground arith) (ground arith)
    ]

process_entry-none :
    (s : Server) (links : List DeploymentLink) (id : String) (e : ArchiveEntry) (rs : List Resolved)
    → any (is_link id) links ≡ false
    → any (is_resolved id) rs ≡ false
    → any (is_resolved id) (process_entry s links e rs) ≡ false
unfolding process_entry
process_entry-none s links id directory rs unlisted h = h
process_entry-none s links id (file name none) rs unlisted h = h
process_entry-none s links id (file name (some content)) rs unlisted h =
    elim (Bool-cases (s.is_yaml name)) [
      | inr other ↦ rw other h
      | inl yaml ↦
          elim (Option-cases (deployment_of_digest (calculate_digest s.formats content) links)) [
            | inl miss ↦ rw (yaml, miss) h
            | inr (id', hit) ↦ elim (Option-cases (s.formats.read_descriptor content)) [
              | inl unread ↦ rw (yaml, hit, unread) h
              | inr (d, read) ↦
                  rw (yaml, hit, read)
                    (any-put_resolved_none id _ rs
                      (deployment_of_digest-listed _ id id' links hit unlisted) h)
            ]
          ]
    ]

process_entries-none :
    (s : Server) (links : List DeploymentLink) (id : String) (es : List ArchiveEntry)
    (rs : List Resolved)
    → any (is_link id) links ≡ false
    → any (is_resolved id) rs ≡ false
    → any (is_resolved id) (process_entries s links es rs) ≡ false
unfolding process_entries
process_entries-none s links id [] rs unlisted h = h
process_entries-none s links id (e ∷ es) rs unlisted h =
    process_entries-none s links id es _ unlisted (process_entry-none s links id e rs unlisted h)

fetch_bundle_once-none :
    (s : Server) (base id : String) (bundle : Option BundleLink) (links : List DeploymentLink)
    (rs : List Resolved)
    → any (is_link id) links ≡ false
    → fetch_bundle_once s base bundle links ≡ some rs
    → any (is_resolved id) rs ≡ false
unfolding fetch_bundle_once
fetch_bundle_once-none s base id none links rs unlisted e =
    let made : rs ≡ [] = ground arith in rw made refl
fetch_bundle_once-none s base id (some b) links rs unlisted e = elim (Bool-cases (b.url == "")) [
  | inl blank ↦ let made : rs ≡ [] = ground arith in rw made refl
  | inr there ↦ elim (Option-cases (s.get (resolve_url base b.url))) [
    | inl miss ↦ absurd (ground arith)
    | inr (raw, got) ↦ elim (Option-cases (s.read_archive raw)) [
      | inl broken ↦ absurd (ground arith)
      | inr (es, read) ↦
          let made : rs ≡ process_entries s links es [] = ground arith in
          rw made (process_entries-none s links id es [] unlisted refl)
    ]
  ]
]

pub initial_sync-none :
    (s : Server) (base id : String) (m : ManifestResponse) (st : State)
    → any (is_link id) m.deployments ≡ false
    → any (is_resolved id) (initial_sync s base m st).0 ≡ false
unfolding initial_sync
initial_sync-none s base id m st unlisted =
    elim (Option-cases (fetch_bundle_once s base m.bundle m.deployments)) [
      | inl miss ↦ ground arith
      | inr (rs, got) ↦
          let bundled = fetch_bundle_once-none s base id m.bundle m.deployments rs unlisted got in
          ground (arith, bundled)
    ]
