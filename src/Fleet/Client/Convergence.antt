-- ===== src/Fleet/Client/Convergence.antt =====
-- pollOnce of cmd/wfm-client/main.go: what the device runs after a poll.
use specification_enhancemen.Prelude.{
  ◌<◌, not, String, ◌==◌, Bool, true, false, ◌||◌, Option, none, some, List, [], ◌∷◌, ◌++◌, ◌≡◌,
  refl, arith, ◌∙◌, All, All-map, Bool-cases, Option-cases, inl, inr, find, any, modify, select,
  Apart, find-none, find-append, str_eq→≡, str_eq_refl, eq_iff,
}
use specification_enhancemen.Fleet.Fetching.{ManifestResponse, Resolved, Server, is_resolved}
use specification_enhancemen.Fleet.Client.{
  CacheEntry, State, changed, is_entry, is_link, resolve_links, next_entry, apply_change,
  apply_changes, reconcile_deployments, initial_sync, take_manifest, poll_once,
}
use specification_enhancemen.Fleet.Client.Resolving.{
  Only, IsResolved, IsFetchable, same_id, resolve_links-IsResolved,
}
use specification_enhancemen.Fleet.Client.Unlisted.{resolve_links-none, initial_sync-none}

-- The device runs the deployment with this digest.
pub record Runs (id digest : String) (entries : List CacheEntry) : Type 0 where
  pub entry : CacheEntry
  pub found : find (is_entry id) entries ≡ some entry
  pub same : entry.digest ≡ digest

next_entry_names :
    (r : Resolved) (e : Option CacheEntry)
    → ((next_entry r e).deployment_id ≡ r.deployment_id) × ((next_entry r e).digest ≡ r.digest)
unfolding next_entry
next_entry_names r e = ground arith

find-modify_own :
    (n : CacheEntry) (xs : List CacheEntry) (e : CacheEntry)
    → find (is_entry n.deployment_id) xs ≡ some e
    → find (is_entry n.deployment_id) (modify (is_entry n.deployment_id) (λ _. n) xs) ≡ some n
find-modify_own n [] e h = absurd (ground arith)
find-modify_own n (x ∷ xs) e h = elim (Bool-cases (is_entry n.deployment_id x)) [
  | inl hit ↦ rw (hit, str_eq_refl n.deployment_id) refl
  | inr miss ↦ rw (miss, miss) (find-modify_own n xs e (ground arith))
]

apply_change-Runs_own :
    (r : Resolved) (entries : List CacheEntry)
    → Runs r.deployment_id r.digest (apply_change r entries)
unfolding apply_change
apply_change-Runs_own r entries = elim (Option-cases (find (is_entry r.deployment_id) entries)) [
  | inl miss ↦
      let n = next_entry r none in
      let (own, same) = next_entry_names r none in
      let applied : apply_change r entries ≡ entries ++ n ∷ [] = ground (arith, miss) in
      let gone = find-none (is_entry r.deployment_id) entries miss in
      let found = find-append (is_entry r.deployment_id) entries (n ∷ []) gone in
      let hit : is_entry r.deployment_id n ≡ true = rw own (str_eq_refl r.deployment_id) in
      rw applied (record { entry = n; found = found ∙ rw hit refl; same = same })
  | inr (e, hit) ↦ elim (Bool-cases (e.digest == r.digest)) [
    | inl same ↦
        let applied : apply_change r entries ≡ entries = ground (arith, hit, same) in
        rw applied (record { entry = e; found = hit; same = str_eq→≡ e.digest r.digest same })
    | inr old ↦
        let n = next_entry r (some e) in
        let (own, same) = next_entry_names r (some e) in
        let applied : apply_change r entries ≡ modify (is_entry r.deployment_id) (λ _. n) entries =
          ground (arith, hit, old) in
        let found : find (is_entry n.deployment_id)
              (modify (is_entry n.deployment_id) (λ _. n) entries)
            ≡ some n =
          find-modify_own n entries e (rw own hit) in
        rw applied (record { entry = n; found = rw own at found; same = same })
  ]
]

-- A change to another deployment
find-modify_other :
    (id : String) (n : CacheEntry) (xs : List CacheEntry)
    → is_entry id n ≡ false
    → find (is_entry id) (modify (is_entry n.deployment_id) (λ _. n) xs) ≡ find (is_entry id) xs
find-modify_other id n [] other = refl
find-modify_other id n (x ∷ xs) other = ground (
  arith,
  other,
  find-modify_other id n xs other,
  eq_iff x.deployment_id n.deployment_id,
  eq_iff x.deployment_id id,
  eq_iff n.deployment_id id,
)

find-append_other :
    (id : String) (n : CacheEntry) (xs : List CacheEntry)
    → is_entry id n ≡ false
    → find (is_entry id) (xs ++ n ∷ []) ≡ find (is_entry id) xs
find-append_other id n [] other = ground (arith, other)
find-append_other id n (x ∷ xs) other = ground (arith, find-append_other id n xs other)

find-apply_change_other :
    (id : String) (r : Resolved) (entries : List CacheEntry)
    → is_resolved id r ≡ false
    → find (is_entry id) (apply_change r entries) ≡ find (is_entry id) entries
unfolding apply_change
find-apply_change_other id r entries other =
    elim (Option-cases (find (is_entry r.deployment_id) entries)) [
      | inl miss ↦
          let n = next_entry r none in
          let (own, _) = next_entry_names r none in
          let applied : apply_change r entries ≡ entries ++ n ∷ [] = ground (arith, miss) in
          rw applied (find-append_other id n entries (rw own other))
      | inr (e, hit) ↦ elim (Bool-cases (e.digest == r.digest)) [
        | inl same ↦
            let applied : apply_change r entries ≡ entries = ground (arith, hit, same) in
            rw applied refl
        | inr old ↦
            let n = next_entry r (some e) in
            let (own, _) = next_entry_names r (some e) in
            let applied : apply_change r entries
                ≡ modify (is_entry n.deployment_id) (λ _. n) entries =
              rw own (ground (arith, hit, old)) in
            rw applied (find-modify_other id n entries (rw own other))
      ]
    ]

apply_changes-Runs :
    (id digest : String) (rs : List Resolved) (entries : List CacheEntry)
    → Only id digest rs
    → Runs id digest entries
    → Runs id digest (apply_changes rs entries)
unfolding apply_changes
apply_changes-Runs id digest [] entries only h = h
apply_changes-Runs id digest (r ∷ rs) entries only h =
    apply_changes-Runs id digest rs (apply_change r entries) only.1
      (elim (Bool-cases (is_resolved id r)) [
        | inl own ↦
            let name : r.deployment_id ≡ id = str_eq→≡ r.deployment_id id own in
            let dg : r.digest ≡ digest = only.0 own in
            rw (← name, ← dg) (apply_change-Runs_own r entries)
        | inr other ↦ record {
          entry = h.entry;
          found = find-apply_change_other id r entries other ∙ h.found;
          same = h.same;
        }
      ])

-- Once a deployment is resolved, to one digest alone, it runs with that digest.
apply_changes-IsResolved :
    (id digest : String) (rs : List Resolved) (entries : List CacheEntry)
    → any (is_resolved id) rs ≡ true
    → Only id digest rs
    → Runs id digest (apply_changes rs entries)
unfolding apply_changes
apply_changes-IsResolved id digest [] entries there only = absurd (ground arith)
apply_changes-IsResolved id digest (r ∷ rs) entries there only =
    elim (Bool-cases (is_resolved id r)) [
      | inr other ↦ apply_changes-IsResolved id digest rs _ (ground (arith, there, other)) only.1
      | inl own ↦
          let name : r.deployment_id ≡ id = str_eq→≡ r.deployment_id id own in
          let dg : r.digest ≡ digest = only.0 own in
          apply_changes-Runs id digest rs (apply_change r entries) only.1
            (rw (← name, ← dg) (apply_change-Runs_own r entries))
    ]

pub find-apply_changes_none :
    (id : String) (rs : List Resolved) (entries : List CacheEntry)
    → any (is_resolved id) rs ≡ false
    → find (is_entry id) (apply_changes rs entries) ≡ find (is_entry id) entries
unfolding apply_changes
find-apply_changes_none id [] entries h = refl
find-apply_changes_none id (r ∷ rs) entries h =
    find-apply_changes_none id rs (apply_change r entries) (ground arith)
    ∙ find-apply_change_other id r entries (ground arith)

find-select-none :
    (id : String) (p : CacheEntry → Bool) (entries : List CacheEntry)
    → ((e : CacheEntry) → is_entry id e ≡ true → p e ≡ false)
    → find (is_entry id) (select p entries) ≡ none
find-select-none id p [] h = refl
find-select-none id p (e ∷ entries) h = elim (Bool-cases (is_entry id e)) [
  | inl own ↦ rw (h e own) (find-select-none id p entries h)
  | inr other ↦ elim (Bool-cases (p e)) [
    | inl kept ↦ rw (kept, other) (find-select-none id p entries h)
    | inr gone ↦ rw gone (find-select-none id p entries h)
  ]
]

-- What a poll leaves the device with, after it has taken a manifest
pub reconciled :
    (s : Server) (base etag : String) (m : ManifestResponse) (st : State)
    → st.manifest_version < m.manifest_version
    → (poll_once s base (changed m etag) st).deployments
      ≡ reconcile_deployments m.deployments
          (resolve_links s base st.deployments m.deployments (initial_sync s base m st).0)
          st.deployments
unfolding poll_once take_manifest
reconciled s base etag m st newer = ground arith

poll_once-unlisted :
    (s : Server) (base etag id : String) (m : ManifestResponse) (st : State)
    → st.manifest_version < m.manifest_version
    → any (is_link id) m.deployments ≡ false
    → any (is_entry id) (poll_once s base (changed m etag) st).deployments ≡ false
unfolding reconcile_deployments
poll_once-unlisted s base etag id m st newer unlisted =
    let bundled = (initial_sync s base m st).0 in
    let rs = resolve_links s base st.deployments m.deployments bundled in
    let kept : CacheEntry → Bool =
      λ e. any (is_link e.deployment_id) m.deployments || any (is_resolved e.deployment_id) rs in
    let none_here =
      resolve_links-none s base id st.deployments m.deployments bundled unlisted
        (initial_sync-none s base id m st unlisted) in
    let gone = find-select-none id kept st.deployments (λ e own.
      let name : e.deployment_id ≡ id = str_eq→≡ e.deployment_id id own in
      rw name (ground (arith, unlisted, none_here))) in
    rw (reconciled s base etag m st newer) (
      find-none (is_entry id) _
        (find-apply_changes_none id rs (select kept st.deployments) none_here ∙ gone))

-- After a poll that gets a newer manifest, whose deployment IDs are distinct, whose digests are
-- supported and whose descriptors can all be fetched, the device runs every deployment of the
-- manifest with the digest that the manifest names, and no deployment whose ID the manifest does not
-- list.
pub poll_once-converges :
    (s : Server) (base etag id : String) (m : ManifestResponse) (st : State)
    → st.manifest_version < m.manifest_version
    → Apart same_id m.deployments
    → All (IsFetchable s base) m.deployments
    → All
        (λ d. Runs d.deployment_id d.digest (poll_once s base (changed m etag) st).deployments)
        m.deployments
      × ((any (is_link id) m.deployments
            || not (any (is_entry id) (poll_once s base (changed m etag) st).deployments))
          ≡ true)
unfolding reconcile_deployments
poll_once-converges s base etag id m st newer apart fetchable =
    let bundled = (initial_sync s base m st).0 in
    let rs = resolve_links s base st.deployments m.deployments bundled in
    let kept : CacheEntry → Bool =
      λ e. any (is_link e.deployment_id) m.deployments || any (is_resolved e.deployment_id) rs in
    let resolved =
      resolve_links-IsResolved s base st.deployments m.deployments bundled apart fetchable in
    (
      rw (reconciled s base etag m st newer) (
          All-map _ _
            (λ d (h : IsResolved d.deployment_id d.digest rs).
              apply_changes-IsResolved d.deployment_id d.digest rs (select kept st.deployments)
                h.there h.only)
            m.deployments resolved),
      elim (Bool-cases (any (is_link id) m.deployments)) [
        | inl listed ↦ rw listed refl
        | inr unlisted ↦ rw (unlisted, poll_once-unlisted s base etag id m st newer unlisted) refl
      ],
    )
