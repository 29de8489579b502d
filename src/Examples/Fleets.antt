-- ===== src/Examples/Fleets.antt =====
-- Instances of the theorems on the desired-state server and its client, for one device.
use specification_enhancemen.Prelude.{
  Bool, ◌+◌, suc, String, ◌<>◌, ◌==◌, true, false, not, ◌||◌, none, some, List, [], ◌∷◌, ◌≡◌, refl,
  arith, ok, ◌⊎◌, All, any, if◌then◌else◌,
}
use specification_enhancemen.Fleet.{BundleFile, Formats, Manifest, Deployment, calculate_digest}
use specification_enhancemen.Fleet.Tables.{
  Tables, has_device, get_deployments, get_manifest_row, insert_deployment_blob, insert_bundle_blob,
  upsert_deployment_row, upsert_manifest_row,
}
use specification_enhancemen.Fleet.Tables.Sound.{IsSound}
use specification_enhancemen.Fleet.Repository.{get_manifest, upsert_deployments}
use specification_enhancemen.Fleet.Repository.Versions.{state_of}
use specification_enhancemen.Fleet.Service.{create_deployment}
use specification_enhancemen.Fleet.Service.Integrity.{Request, create, step, run, run-IsSound}
use specification_enhancemen.Fleet.Service.Served.{IsServed, IsBundleServed, run-IsServed}
use specification_enhancemen.Fleet.Service.Versions.{Moves, step-Moves}
use specification_enhancemen.Fleet.Fetching.{
  DeploymentLink, ManifestResponse, Server, resolve_url, all_hex, count_chars, is_supported_digest,
  fetch_deployment,
}
use specification_enhancemen.Fleet.Client.{
  State, ManifestAnswer, not_modified, changed, is_entry, is_link, poll_once, poll_all,
}
use specification_enhancemen.Fleet.Client.Resolving.{IsFetchable}
use specification_enhancemen.Fleet.Client.Convergence.{Runs, poll_once-converges}
use specification_enhancemen.Fleet.Client.Rollback.{poll_once-no_rollback}
use specification_enhancemen.Fleet.Client.Retrying.{poll_all-never_retried}
use specification_enhancemen.Fleet.Etags.{match_tags}
use specification_enhancemen.Fleet.Etags.Rounds.{match_tags_ends}

abbrev archive : List BundleFile → String
archive [] = "end"
archive (f ∷ fs) = f.name <> "=" <> f.content <> ";" <> archive fs

-- A stand-in for the digests: the content itself
abbrev formats : Formats
formats = record {
  sha256_hex = λ s. s;
  read_descriptor =
      λ body. some (record { application_id = "app"; id = ""; name = "demo"; rest = body });
  render_descriptor = λ d. some (d.id <> ":" <> d.rest);
  is_valid = λ _. true;
  write_archive = λ fs. some (archive fs);
}

abbrev fleet : Tables
fleet = record {
  devices = "dev-1" ∷ [];
  deployments = [];
  manifests = [];
  deployment_blobs = [];
  bundle_blobs = [];
}

fleet-IsSound : IsSound formats fleet
fleet-IsSound = record { blobs = tt; bundles = tt; inked = tt; linked = tt }

abbrev requests : List Request
requests = create "id-1" "dev-1" "one" ∷ create "id-2" "dev-1" "two" ∷ []

run-IsSound_example : IsSound formats (run formats requests fleet)
run-IsSound_example = run-IsSound formats requests fleet fleet-IsSound

step-Moves_example :
    Moves
      (state_of "dev-1" fleet.manifests)
      (state_of "dev-1" (step formats (create "id-1" "dev-1" "one") fleet).manifests)
step-Moves_example = step-Moves formats "dev-1" (create "id-1" "dev-1" "one") fleet

abbrev deployment_1 : Deployment
deployment_1 = record {
  id = "id-1";
  descriptor = "id-1:one";
  descriptor_digest = "sha256:id-1:one";
}

abbrev manifest_1 : Manifest
manifest_1 = record {
  version = 2;
  bundle_archive = "";
  bundle_digest = "sha256:id-1.yaml=id-1:one;end";
  deployments = deployment_1 ∷ [];
}

listed : get_manifest "dev-1" (run formats (create "id-1" "dev-1" "one" ∷ []) fleet) ≡ ok manifest_1
unfolding run get_manifest has_device create_deployment upsert_deployments get_manifest_row
    upsert_manifest_row calculate_digest insert_bundle_blob upsert_deployment_row
    insert_deployment_blob get_deployments
listed = refl

run-IsServed_example :
    ((manifest_1.bundle_digest ≡ "")
      ⊎ IsBundleServed formats "dev-1"
          (run formats (create "id-1" "dev-1" "one" ∷ []) fleet)
          manifest_1.bundle_digest)
    × All
        (IsServed formats "dev-1" (run formats (create "id-1" "dev-1" "one" ∷ []) fleet))
        manifest_1.deployments
run-IsServed_example =
    run-IsServed formats "dev-1" (create "id-1" "dev-1" "one" ∷ []) manifest_1 fleet fleet-IsSound
      listed

abbrev hex : String
hex = "0000000000000000000000000000000000000000000000000000000000000000"

abbrev link : DeploymentLink
link = record {
  deployment_id = "id-1";
  digest = "sha256:0000000000000000000000000000000000000000000000000000000000000000";
  url = "http://wfm/one";
}

abbrev response : ManifestResponse
response = record { manifest_version = 2; bundle = none; deployments = link ∷ [] }

abbrev server : Server
server = record {
  formats = record formats { sha256_hex = λ _. hex };
  get = λ url. if url == "http://wfm/one" then some "one" else none;
  read_archive = λ _. none;
  is_yaml = λ _. true;
}

-- The server, when it cannot be reached
abbrev lost : Server
lost = record server { get = λ _. none }

abbrev device : State
device = record {
  manifest_etag = "";
  manifest_version = 1;
  deployments = [];
  bundle_fetched = true;
}

fetchable : IsFetchable server "http://wfm" link
unfolding is_supported_digest fetch_deployment resolve_url all_hex count_chars calculate_digest
fetchable = record {
  supported = refl;
  descriptor = record { application_id = "app"; id = ""; name = "demo"; rest = "one" };
  fetched = refl;
}

poll_once-converges_example :
    All
      (λ d.
        Runs d.deployment_id d.digest
          (poll_once server "http://wfm" (changed response "etag") device).deployments)
      (link ∷ [])
    × ((any (is_link "id-2") (link ∷ [])
          || not (
              any
                (is_entry "id-2")
                (poll_once server "http://wfm" (changed response "etag") device).deployments))
        ≡ true)
poll_once-converges_example =
    poll_once-converges server "http://wfm" "etag" "id-2" response device (omega arith) (refl, tt)
      (fetchable, tt)

abbrev polls : List (Server × ManifestAnswer)
polls = (server, not_modified) ∷ (server, changed response "etag") ∷ []

poll_once-no_rollback_example :
    poll_once server "http://wfm"
      (changed (record response { manifest_version = 1 }) "old")
      (poll_all "http://wfm" polls device)
    ≡ poll_all "http://wfm" polls device
poll_once-no_rollback_example =
    poll_once-no_rollback server "http://wfm" "old" (record response { manifest_version = 1 }) polls
      device (omega arith)

unreached : fetch_deployment lost (resolve_url "http://wfm" "http://wfm/one") link.digest ≡ none
unfolding fetch_deployment resolve_url
unreached = refl

-- A manifest with another link before and behind that one
abbrev link_named : String → DeploymentLink
link_named id = record link { deployment_id = id }

abbrev three_links : ManifestResponse
three_links = record response { deployments = link_named "id-0" ∷ link ∷ link_named "id-2" ∷ [] }

poll_all-never_retried_example :
    any
      (is_entry "id-1")
      (poll_all "http://wfm" polls
        (poll_once lost "http://wfm" (changed three_links "etag") device)).deployments
    ≡ false
poll_all-never_retried_example =
    poll_all-never_retried lost "http://wfm" "etag" three_links link (link_named "id-0" ∷ [])
      (link_named "id-2" ∷ []) polls device (omega arith) refl refl refl refl refl unreached
      (tt, (omega arith, tt))

abbrev header : String
header = "\"a\", W/\"b\""

match_tags_ends_example :
    (answer : Bool) × (match_tags (suc (count_chars header)) "\"b\"" header ≡ some answer)
    × (match_tags (suc (count_chars header) + 3) "\"b\"" header ≡ some answer)
match_tags_ends_example = match_tags_ends 3 "\"b\"" header
