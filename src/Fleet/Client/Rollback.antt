-- ===== src/Fleet/Client/Rollback.antt =====
-- pollOnce of cmd/wfm-client/main.go: manifests that are not newer than what the device has taken.
use specification_enhancemen.Prelude.{
  ℕ, ◌≤◌, true, All, String, List, [], ◌∷◌, ◌≡◌, refl, arith, leb,
}
use specification_enhancemen.Fleet.Fetching.{ManifestResponse, Server}
use specification_enhancemen.Fleet.Client.{
  State, ManifestAnswer, failed, not_modified, changed, take_manifest, poll_once, poll_all,
}

-- A poll that takes a manifest
pub take_manifest-version :
    (s : Server) (base : String) (m : ManifestResponse) (etag : String) (st : State)
    → (take_manifest s base m etag st).manifest_version ≡ m.manifest_version
unfolding take_manifest
take_manifest-version s base m etag st = refl

poll_once-rises :
    (s : Server) (base : String) (a : ManifestAnswer) (st : State)
    → st.manifest_version ≤ (poll_once s base a st).manifest_version
unfolding poll_once
poll_once-rises s base failed st = omega arith
poll_once-rises s base not_modified st = omega arith
poll_once-rises s base (changed m etag) st = ground (arith, take_manifest-version s base m etag st)

pub poll_all-rises :
    (base : String) (polls : List (Server × ManifestAnswer)) (st : State)
    → st.manifest_version ≤ (poll_all base polls st).manifest_version
unfolding poll_all
poll_all-rises base [] st = omega arith
poll_all-rises base ((s, a) ∷ polls) st =
    omega (arith, poll_once-rises s base a st, poll_all-rises base polls (poll_once s base a st))

-- A manifest whose version is not above one that the device has already reached changes nothing,
-- whatever polls came in between and whoever serves it.
pub poll_once-no_rollback :
    (s : Server) (base etag : String) (m : ManifestResponse)
    (polls : List (Server × ManifestAnswer)) (st : State)
    → m.manifest_version ≤ st.manifest_version
    → poll_once s base (changed m etag) (poll_all base polls st) ≡ poll_all base polls st
unfolding poll_once
poll_once-no_rollback s base etag m polls st old = ground (arith, poll_all-rises base polls st)

-- What a server answers that has nothing above this version
abbrev pub IsNotNewer : ℕ → Server × ManifestAnswer → Type 0
IsNotNewer version (s, failed) = Unit
IsNotNewer version (s, not_modified) = Unit
IsNotNewer version (s, changed m etag) = m.manifest_version ≤ version

-- A failed fetch is not repeated: once the device has taken a manifest, nothing changes as long as the
-- server has no manifest with a higher version.
pub poll_all-settled :
    (base : String) (version : ℕ) (polls : List (Server × ManifestAnswer)) (st : State)
    → version ≤ st.manifest_version
    → All (IsNotNewer version) polls
    → poll_all base polls st ≡ st
unfolding poll_all poll_once
poll_all-settled base version [] st taken old = refl
poll_all-settled base version ((s, failed) ∷ polls) st taken old =
    poll_all-settled base version polls st taken old.1
poll_all-settled base version ((s, not_modified) ∷ polls) st taken old =
    poll_all-settled base version polls st taken old.1
poll_all-settled base version ((s, changed m etag) ∷ polls) st taken old =
    let ignored : leb m.manifest_version st.manifest_version ≡ true = ground (arith, old.0) in
    rw ignored (poll_all-settled base version polls st taken old.1)
