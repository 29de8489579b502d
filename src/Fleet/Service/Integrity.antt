-- ===== src/Fleet/Service/Integrity.antt =====
-- The operations of service/deployment.go: that the tables stay sound, and what can be fetched.
use specification_enhancemen.Prelude.{
  String, ◌==◌, not, ◌&&◌, some, List, [], ◌∷◌, ◌++◌, ◌≡◌, arith, ok, ◌⊎◌, All, All-append,
  Bool-cases, Option-cases, Result-cases, inl, inr,
}
use specification_enhancemen.Fleet.{Deployment, Manifest, Descriptor, Formats, calculate_digest}
use specification_enhancemen.Fleet.Tables.{Tables}
use specification_enhancemen.Fleet.Tables.Sound.{IsSound}
use specification_enhancemen.Fleet.Repository.{upsert_deployments}
use specification_enhancemen.Fleet.Repository.Integrity.{
  IsAddressed, IsFaithful, upsert_deployments-IsSound,
}
use specification_enhancemen.Fleet.Service.{
  bundle_of, rebuild_manifest_bundle, render_deployment, read_valid, answer_with, add_deployment,
  create_deployment, replace_first, remove_first, replace_deployment, update_deployment,
  drop_deployment, delete_deployment,
}

module _ (f : Formats) where
  bundle_of-bundled :
      (ds : List Deployment) (archive digest : String)
      → bundle_of f ds ≡ some (archive, digest)
      → (digest ≡ "") ⊎ (calculate_digest f archive ≡ digest)
  unfolding bundle_of
  bundle_of-bundled [] archive digest e = inl (ground arith)
  bundle_of-bundled (d ∷ ds) archive digest e = inr (ground arith)

  rebuild_manifest_bundle-IsFaithful :
      (m m' : Manifest)
      → All (IsAddressed f) m.deployments
      → rebuild_manifest_bundle f m ≡ ok m'
      → IsFaithful f m'
  unfolding rebuild_manifest_bundle
  rebuild_manifest_bundle-IsFaithful m m' a e = elim (Option-cases (bundle_of f m.deployments)) [
    | inl g ↦ absurd (ground arith)
    | inr ((archive, digest), g) ↦
        let kept : m'.deployments ≡ m.deployments = ground arith in
        let bytes : m'.bundle_archive ≡ archive = ground arith in
        let name : m'.bundle_digest ≡ digest = ground arith in
        record {
          addressed = rw kept a;
          bundled = rw (bytes, name) (bundle_of-bundled m.deployments archive digest g);
        }
  ]

  render_deployment-IsAddressed :
      (descriptor : Descriptor) (id : String) (d : Deployment)
      → render_deployment f descriptor id ≡ ok d
      → IsAddressed f d
  unfolding render_deployment IsAddressed
  render_deployment-IsAddressed descriptor id d e = ground arith

  replace_first-IsAddressed :
      (d : Deployment) (ds : List Deployment)
      → IsAddressed f d
      → All (IsAddressed f) ds
      → All (IsAddressed f) (replace_first d ds)
  unfolding replace_first
  replace_first-IsAddressed d [] a h = tt
  replace_first-IsAddressed d (x ∷ xs) a h = elim (Bool-cases (x.id == d.id)) [
    | inl e ↦ rw e (a, h.1)
    | inr e ↦ rw e (h.0, replace_first-IsAddressed d xs a h.1)
  ]

  remove_first-IsAddressed :
      (id : String) (ds : List Deployment)
      → All (IsAddressed f) ds
      → All (IsAddressed f) (remove_first id ds)
  unfolding remove_first
  remove_first-IsAddressed id [] h = tt
  remove_first-IsAddressed id (x ∷ xs) h = elim (Bool-cases (x.id == id)) [
    | inl e ↦ rw e (h.1)
    | inr e ↦ rw e (h.0, remove_first-IsAddressed id xs h.1)
  ]

  add_deployment-IsFaithful :
      (d : Deployment) (m m' : Manifest)
      → IsAddressed f d
      → All (IsAddressed f) m.deployments
      → add_deployment f d m ≡ ok m'
      → IsFaithful f m'
  unfolding add_deployment
  add_deployment-IsFaithful d m m' a h e =
      rebuild_manifest_bundle-IsFaithful (record m { deployments = m.deployments ++ d ∷ [] }) m'
        (All-append _ m.deployments (d ∷ []) h (a, tt)) e

  replace_deployment-IsFaithful :
      (d : Deployment) (m m' : Manifest)
      → IsAddressed f d
      → All (IsAddressed f) m.deployments
      → replace_deployment f d m ≡ ok m'
      → IsFaithful f m'
  unfolding replace_deployment
  replace_deployment-IsFaithful d m m' a h e =
      rebuild_manifest_bundle-IsFaithful (record m { deployments = replace_first d m.deployments })
        m' (replace_first-IsAddressed d m.deployments a h) (ground arith)

  drop_deployment-IsFaithful :
      (id : String) (m m' : Manifest)
      → All (IsAddressed f) m.deployments
      → drop_deployment f id m ≡ ok m'
      → IsFaithful f m'
  unfolding drop_deployment
  drop_deployment-IsFaithful id m m' h e =
      rebuild_manifest_bundle-IsFaithful (record m { deployments = remove_first id m.deployments })
        m' (remove_first-IsAddressed id m.deployments h) (ground arith)

  create_deployment-IsSound :
      (uuid device_id body : String) (t : Tables)
      → IsSound f t
      → IsSound f (create_deployment f uuid device_id body t).1
  unfolding create_deployment answer_with
  create_deployment-IsSound uuid device_id body t h = elim (Result-cases (read_valid f body)) [
    | inr (x, e) ↦
        let same : (create_deployment f uuid device_id body t).1 ≡ t = ground arith in rw same h
    | inl (descriptor, e) ↦ elim (Result-cases (render_deployment f descriptor uuid)) [
      | inr (x, g) ↦
          let same : (create_deployment f uuid device_id body t).1 ≡ t = ground arith in rw same h
      | inl (d, g) ↦
          let stored = upsert_deployments device_id (add_deployment f d) t in
          let same : (create_deployment f uuid device_id body t).1 ≡ stored.1 = ground arith in
          rw same (
            upsert_deployments-IsSound f device_id (add_deployment f d) t h λ m m'.
              add_deployment-IsFaithful d m m' (render_deployment-IsAddressed descriptor uuid d g))
    ]
  ]

  update_deployment-IsSound :
      (device_id deployment_id body : String) (t : Tables)
      → IsSound f t
      → IsSound f (update_deployment f device_id deployment_id body t).1
  unfolding update_deployment answer_with
  update_deployment-IsSound device_id deployment_id body t h =
      elim (Result-cases (read_valid f body)) [
        | inr (x, e) ↦
            let same : (update_deployment f device_id deployment_id body t).1 ≡ t = ground arith in
            rw same h
        | inl (descriptor, e) ↦
            elim (Bool-cases (not (descriptor.id == "") && not (descriptor.id == deployment_id))) [
              | inl other ↦
                  let same : (update_deployment f device_id deployment_id body t).1 ≡ t =
                    ground arith in
                  rw same h
              | inr own ↦ elim (Result-cases (render_deployment f descriptor deployment_id)) [
                | inr (x, g) ↦
                    let same : (update_deployment f device_id deployment_id body t).1 ≡ t =
                      ground arith in
                    rw same h
                | inl (d, g) ↦
                    let stored = upsert_deployments device_id (replace_deployment f d) t in
                    let same : (update_deployment f device_id deployment_id body t).1 ≡ stored.1 =
                      ground arith in
                    rw same (
                      upsert_deployments-IsSound f device_id (replace_deployment f d) t h λ m m'.
                        replace_deployment-IsFaithful d m m'
                          (render_deployment-IsAddressed descriptor deployment_id d g))
              ]
            ]
      ]

  delete_deployment-IsSound :
      (device_id deployment_id : String) (t : Tables)
      → IsSound f t
      → IsSound f (delete_deployment f device_id deployment_id t).1
  unfolding delete_deployment
  delete_deployment-IsSound device_id deployment_id t h =
      upsert_deployments-IsSound f device_id (drop_deployment f deployment_id) t h
        (drop_deployment-IsFaithful deployment_id)

-- A request that changes the tables, with the UUID that it draws
pub data Request : Type 0 where
  create : (uuid device_id body : String) → Request
  update : (device_id deployment_id body : String) → Request
  delete : (device_id deployment_id : String) → Request

unfoldable pub step : Formats → Request → Tables → Tables
step f (create uuid device_id body) t = (create_deployment f uuid device_id body t).1
step f (update device_id deployment_id body) t =
    (update_deployment f device_id deployment_id body t).1
step f (delete device_id deployment_id) t = (delete_deployment f device_id deployment_id t).1

-- Requests in a row, whatever each of them answers
unfoldable pub run : Formats → List Request → Tables → Tables
unfolding step
run f [] t = t
run f (r ∷ rs) t = run f rs (step f r t)

step-IsSound : (f : Formats) (r : Request) (t : Tables) → IsSound f t → IsSound f (step f r t)
unfolding step
step-IsSound f (create uuid device_id body) t h =
    create_deployment-IsSound f uuid device_id body t h
step-IsSound f (update device_id deployment_id body) t h =
    update_deployment-IsSound f device_id deployment_id body t h
step-IsSound f (delete device_id deployment_id) t h =
    delete_deployment-IsSound f device_id deployment_id t h

-- Whatever requests are served, every descriptor and every bundle stays stored under its own digest,
-- no bundle is empty, and every manifest names a bundle that is stored, or none.
pub run-IsSound :
    (f : Formats) (rs : List Request) (t : Tables) → IsSound f t → IsSound f (run f rs t)
unfolding run
run-IsSound f [] t h = h
run-IsSound f (r ∷ rs) t h = run-IsSound f rs (step f r t) (step-IsSound f r t h)
