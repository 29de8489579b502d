-- ===== src/Fleet/Client/Resolving.antt =====
-- pollOnce of cmd/wfm-client/main.go: what it resolves of a manifest.
use specification_enhancemen.Prelude.{
  String, ◌==◌, Bool, true, false, some, List, [], ◌∷◌, ◌≡◌, refl, arith, ◌∙◌, All, All-append,
  Bool-cases, Option-cases, inl, inr, find, any, modify, Apart, All-any_none, find-some, any-append,
  str_eq→≡, str_eq_refl, eq_iff,
}
use specification_enhancemen.Fleet.{Descriptor}
use specification_enhancemen.Fleet.Fetching.{
  DeploymentLink, Resolved, Server, resolve_url, is_supported_digest, fetch_deployment, is_resolved,
  put_resolved,
}
use specification_enhancemen.Fleet.Client.{
  CacheEntry, is_entry, is_link, fetch_link, resolve_link, resolve_links,
}

-- Every resolved descriptor of the deployment has this digest.
abbrev pub Only : String → String → List Resolved → Type 0
Only id digest rs = All (λ r. is_resolved id r ≡ true → r.digest ≡ digest) rs

-- What put_resolved leaves of another deployment
put_resolved-Only :
    (id digest : String) (r : Resolved) (rs : List Resolved)
    → (is_resolved id r ≡ true → r.digest ≡ digest)
    → Only id digest rs
    → Only id digest (put_resolved r rs)
unfolding put_resolved
put_resolved-Only id digest r rs new h = elim (Bool-cases (any (is_resolved r.deployment_id) rs)) [
  | inl e ↦ rw e (replaced rs h)
  | inr e ↦ rw e (All-append _ rs (r ∷ []) h (new, tt))
]
  where
    replaced :
        (xs : List Resolved)
        → Only id digest xs
        → Only id digest (modify (is_resolved r.deployment_id) (λ _. r) xs)
    replaced [] g = tt
    replaced (x ∷ xs) g = elim (Bool-cases (is_resolved r.deployment_id x)) [
      | inl e ↦ rw e (new, replaced xs g.1)
      | inr e ↦ rw e (g.0, replaced xs g.1)
    ]

-- A deployment that is resolved stays so.
any-put_resolved :
    (id : String) (r : Resolved) (rs : List Resolved)
    → any (is_resolved id) rs ≡ true
    → any (is_resolved id) (put_resolved r rs) ≡ true
unfolding put_resolved
any-put_resolved id r rs h = elim (Bool-cases (any (is_resolved r.deployment_id) rs)) [
  | inl e ↦ rw e (replaced rs h)
  | inr e ↦ rw e (any-append (is_resolved id) rs (r ∷ []) ∙ ground (arith, h))
]
  where
    replaced :
        (xs : List Resolved)
        → any (is_resolved id) xs ≡ true
        → any (is_resolved id) (modify (is_resolved r.deployment_id) (λ _. r) xs) ≡ true
    replaced [] g = g
    replaced (x ∷ xs) g = ground (
      arith,
      replaced xs,
      eq_iff x.deployment_id r.deployment_id,
      eq_iff x.deployment_id id,
      eq_iff r.deployment_id id,
    )

any-put_resolved_own :
    (r : Resolved) (rs : List Resolved)
    → any (is_resolved r.deployment_id) (put_resolved r rs) ≡ true
unfolding put_resolved
any-put_resolved_own r rs = elim (Bool-cases (any (is_resolved r.deployment_id) rs)) [
  | inl e ↦ rw e (replaced rs e)
  | inr e ↦ rw e (
      any-append (is_resolved r.deployment_id) rs (r ∷ [])
      ∙ ground (arith, e, str_eq_refl r.deployment_id))
]
  where
    replaced :
        (xs : List Resolved)
        → any (is_resolved r.deployment_id) xs ≡ true
        → any (is_resolved r.deployment_id) (modify (is_resolved r.deployment_id) (λ _. r) xs)
          ≡ true
    replaced [] g = g
    replaced (x ∷ xs) g = ground (arith, replaced xs, str_eq_refl r.deployment_id)

put_resolved-Only_own :
    (r : Resolved) (rs : List Resolved) → Only r.deployment_id r.digest (put_resolved r rs)
unfolding put_resolved
put_resolved-Only_own r rs = elim (Bool-cases (any (is_resolved r.deployment_id) rs)) [
  | inl e ↦ rw e (replaced rs)
  | inr e ↦ rw e (
      All-append _ rs (r ∷ []) (none_there rs (All-any_none (is_resolved r.deployment_id) rs e))
        ((λ _. refl), tt))
]
  where
    replaced :
        (xs : List Resolved)
        → Only r.deployment_id r.digest (modify (is_resolved r.deployment_id) (λ _. r) xs)
    replaced [] = tt
    replaced (x ∷ xs) = elim (Bool-cases (is_resolved r.deployment_id x)) [
      | inl e ↦ rw e ((λ _. refl), replaced xs)
      | inr e ↦ rw e ((λ hit. absurd (ground arith)), replaced xs)
    ]

    none_there :
        (xs : List Resolved)
        → All (λ x. is_resolved r.deployment_id x ≡ false) xs
        → Only r.deployment_id r.digest xs
    none_there [] g = tt
    none_there (x ∷ xs) g = ((λ hit. absurd (ground (arith, g.0))), none_there xs g.1)

-- The deployment is resolved, to this digest alone.
pub record IsResolved (id digest : String) (rs : List Resolved) : Type 0 where
  pub there : any (is_resolved id) rs ≡ true
  pub only : Only id digest rs

put_resolved-IsResolved_own :
    (id digest : String) (r : Resolved) (rs : List Resolved)
    → r.deployment_id ≡ id
    → r.digest ≡ digest
    → IsResolved id digest (put_resolved r rs)
put_resolved-IsResolved_own id digest r rs own same =
    rw (← own, ← same)
      (record { there = any-put_resolved_own r rs; only = put_resolved-Only_own r rs })

put_resolved-IsResolved_other :
    (id digest : String) (r : Resolved) (rs : List Resolved)
    → is_resolved id r ≡ false
    → IsResolved id digest rs
    → IsResolved id digest (put_resolved r rs)
put_resolved-IsResolved_other id digest r rs other h = record {
  there = any-put_resolved id r rs h.there;
  only = put_resolved-Only id digest r rs (λ hit. absurd (ground arith)) h.only;
}

-- The descriptor can be fetched, and its digest is one that the device supports.
pub record IsFetchable (s : Server) (base : String) (d : DeploymentLink) : Type 0 where
  pub supported : is_supported_digest d.digest ≡ true
  pub descriptor : Descriptor
  pub fetched : fetch_deployment s (resolve_url base d.url) d.digest ≡ some descriptor

fetch_link-IsResolved :
    (s : Server) (base : String) (d : DeploymentLink) (rs : List Resolved)
    → IsFetchable s base d
    → IsResolved d.deployment_id d.digest (fetch_link s base d rs)
unfolding fetch_link
fetch_link-IsResolved s base d rs h =
    rw (h.fetched, fetch_link) (put_resolved-IsResolved_own d.deployment_id d.digest _ rs refl refl)

resolve_link-IsResolved :
    (s : Server) (base : String) (cached : List CacheEntry) (d : DeploymentLink)
    (rs : List Resolved)
    → IsFetchable s base d
    → IsResolved d.deployment_id d.digest (resolve_link s base cached d rs)
unfolding resolve_link
resolve_link-IsResolved s base cached d rs h =
    elim (Option-cases (find (is_resolved d.deployment_id) rs)) [
      | inr (e, there) ↦
          let own : e.deployment_id ≡ d.deployment_id =
            str_eq→≡ e.deployment_id d.deployment_id
              (find-some (is_resolved d.deployment_id) rs e there) in
          rw (h.supported, there)
            (put_resolved-IsResolved_own d.deployment_id d.digest (record e { digest = d.digest })
              rs own refl)
      | inl miss ↦ elim (Option-cases (find (is_entry d.deployment_id) cached)) [
        | inl new ↦ rw (h.supported, miss, new) (fetch_link-IsResolved s base d rs h)
        | inr (current, old) ↦ elim (Bool-cases (current.digest == d.digest)) [
          | inr stale ↦ rw (h.supported, miss, old, stale) (fetch_link-IsResolved s base d rs h)
          | inl same ↦
              rw (h.supported, miss, old, same)
                (put_resolved-IsResolved_own d.deployment_id d.digest _ rs refl refl)
        ]
      ]
    ]

-- Resolving another deployment
fetch_link-IsResolved_other :
    (s : Server) (base id digest : String) (d : DeploymentLink) (rs : List Resolved)
    → is_link id d ≡ false
    → IsResolved id digest rs
    → IsResolved id digest (fetch_link s base d rs)
unfolding fetch_link
fetch_link-IsResolved_other s base id digest d rs other h =
    elim (Option-cases (fetch_deployment s (resolve_url base d.url) d.digest)) [
      | inl e ↦ rw (e, fetch_link) h
      | inr (pd, e) ↦ rw (e, fetch_link) (put_resolved-IsResolved_other id digest _ rs other h)
    ]

resolve_link-IsResolved_other :
    (s : Server) (base id digest : String) (cached : List CacheEntry) (d : DeploymentLink)
    (rs : List Resolved)
    → is_link id d ≡ false
    → IsResolved id digest rs
    → IsResolved id digest (resolve_link s base cached d rs)
unfolding resolve_link
resolve_link-IsResolved_other s base id digest cached d rs other h =
    elim (Bool-cases (is_supported_digest d.digest)) [
      | inr unknown ↦ rw unknown h
      | inl known ↦ elim (Option-cases (find (is_resolved d.deployment_id) rs)) [
        | inr (e, there) ↦
            let own : e.deployment_id ≡ d.deployment_id =
              str_eq→≡ e.deployment_id d.deployment_id
                (find-some (is_resolved d.deployment_id) rs e there) in
            rw (known, there)
              (put_resolved-IsResolved_other id digest (record e { digest = d.digest }) rs
                (rw own other) h)
        | inl miss ↦
            let fetched = fetch_link-IsResolved_other s base id digest d rs other h in
            elim (Option-cases (find (is_entry d.deployment_id) cached)) [
              | inl new ↦ rw (known, miss, new) fetched
              | inr (current, old) ↦ elim (Bool-cases (current.digest == d.digest)) [
                | inr stale ↦ rw (known, miss, old, stale) fetched
                | inl same ↦
                    rw (known, miss, old, same)
                      (put_resolved-IsResolved_other id digest _ rs other h)
              ]
            ]
      ]
    ]

abbrev pub same_id : DeploymentLink → DeploymentLink → Bool
same_id d l = l.deployment_id == d.deployment_id

resolve_links-IsResolved_other :
    (s : Server) (base id digest : String) (cached : List CacheEntry) (ds : List DeploymentLink)
    (rs : List Resolved)
    → any (is_link id) ds ≡ false
    → IsResolved id digest rs
    → IsResolved id digest (resolve_links s base cached ds rs)
unfolding resolve_links
resolve_links-IsResolved_other s base id digest cached [] rs other h = h
resolve_links-IsResolved_other s base id digest cached (d ∷ ds) rs other h =
    resolve_links-IsResolved_other s base id digest cached ds _ (ground arith)
      (resolve_link-IsResolved_other s base id digest cached d rs (ground arith) h)

-- Every deployment of the manifest is resolved in the end.
pub resolve_links-IsResolved :
    (s : Server) (base : String) (cached : List CacheEntry) (ds : List DeploymentLink)
    (rs : List Resolved)
    → Apart same_id ds
    → All (IsFetchable s base) ds
    → All (λ d. IsResolved d.deployment_id d.digest (resolve_links s base cached ds rs)) ds
unfolding resolve_links
resolve_links-IsResolved s base cached [] rs apart h = tt
resolve_links-IsResolved s base cached (d ∷ ds) rs apart h =
    let next = resolve_link s base cached d rs in
    (
      resolve_links-IsResolved_other s base d.deployment_id d.digest cached ds next apart.0
          (resolve_link-IsResolved s base cached d rs h.0),
      resolve_links-IsResolved s base cached ds next apart.1 h.1,
    )
