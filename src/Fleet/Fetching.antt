-- ===== src/Fleet/Fetching.antt =====
-- completed/sup_desired_state_via_manifest_api/cmd/wfm-client/main.go: what the device fetches. What the
-- server answers and what gzip, tar and yaml.v3 read are arguments; the log and the signals are left
-- out.
use text.Mathlib.Text.{starts_with}
use Prim.Native.Char.{code}
use specification_enhancemen.Prelude.{
  ℕ, String, ◌<>◌, ◌==◌, Bool, true, ◌&&◌, ◌||◌, not, Option, none, some, List, [], ◌∷◌, ◌++◌,
  if◌then◌else◌, eqb, leb, any, modify,
}
use specification_enhancemen.Bootstrap.Secrets.{trim_prefix}
use specification_enhancemen.Transport.Renewal.{trim_right}
use specification_enhancemen.Fleet.{Descriptor, Formats, calculate_digest}

-- common.DeploymentDTO
pub record DeploymentLink : Type 0 where
  pub deployment_id : String
  pub digest : String
  pub url : String

-- common.BundleDTO
pub record BundleLink : Type 0 where
  pub media_type : String
  pub digest : String
  pub url : String

-- common.GetDeploymentManifestResponse
pub record ManifestResponse : Type 0 where
  pub manifest_version : ℕ
  pub bundle : Option BundleLink
  pub deployments : List DeploymentLink

-- resolvedDeployment, under its deployment ID
pub record Resolved : Type 0 where
  pub deployment_id : String
  pub digest : String
  pub descriptor : Option Descriptor

-- What a file of a tar archive is: a directory, a file with its name and its content, which is none
-- where it cannot be read
pub data ArchiveEntry : Type 0 where
  directory : ArchiveEntry
  file : (name : String) → Option String → ArchiveEntry

-- What the server and its archives answer in a poll. `get` is the body of a response with status 200,
-- none for any other answer; `read_archive` is none where gzip or a later header of tar fails, and
-- `is_yaml` tests strings.ToLower(filepath.Ext(name)).
pub record Server : Type 0 where
  pub formats : Formats
  pub get : String → Option String
  pub read_archive : String → Option (List ArchiveEntry)
  pub is_yaml : String → Bool

-- resolveURL
unfoldable pub resolve_url : String → String → String
unfolding trim_right
resolve_url base ref =
    let bare = trim_right (λ c. eqb c 47) base in
    if ref == "" || starts_with ref "http://" || starts_with ref "https://"
    then ref
    else if not (starts_with base "http://" || starts_with base "https://")
    then ref
    else if starts_with ref "/"
    then bare <> ref
    else bare <> "/" <> ref

-- A digit or a letter from a to f
abbrev pub is_hex_char : ℕ → Bool
is_hex_char c = (leb 48 c && leb c 57) || (leb 97 c && leb c 102)

unfoldable pub all_hex : String → Bool
all_hex String.[] = true
all_hex (String.◌∷◌ c s) = is_hex_char (code c) && all_hex s

unfoldable pub count_chars : String → ℕ
count_chars String.[] = 0
count_chars (String.◌∷◌ c s) = ℕ.suc (count_chars s)

-- isSupportedDigest: the expression digestRe and the prefix "sha256:" together ask for the prefix and
-- 64 hexadecimal digits, in small letters, behind it.
unfoldable pub is_supported_digest : String → Bool
unfolding all_hex count_chars
is_supported_digest digest =
    let hex = trim_prefix digest "sha256:" in
    starts_with digest "sha256:" && eqb (count_chars hex) 64 && all_hex hex

-- fetchDeployment; `none` is any of its errors.
unfoldable pub fetch_deployment : Server → String → String → Option Descriptor
fetch_deployment s url expected = elim (s.get url) [
  | none ↦ none
  | some body ↦
      if not (calculate_digest s.formats body == expected)
      then none
      else s.formats.read_descriptor body
]

abbrev pub is_resolved : String → Resolved → Bool
is_resolved id r = r.deployment_id == id

-- entries[id] = e on a map
unfoldable pub put_resolved : Resolved → List Resolved → List Resolved
put_resolved e rs =
    if any (is_resolved e.deployment_id) rs
    then modify (is_resolved e.deployment_id) (λ _. e) rs
    else rs ++ e ∷ []

-- digestToDep[digest]: the last deployment with the digest
unfoldable pub deployment_of_digest : String → List DeploymentLink → Option String
deployment_of_digest digest [] = none
deployment_of_digest digest (d ∷ ds) = elim (deployment_of_digest digest ds) [
  | some id ↦ some id
  | none ↦ if d.digest == digest then some d.deployment_id else none
]

-- What processBundleArchive does with one entry
unfoldable pub process_entry :
    Server → List DeploymentLink → ArchiveEntry → List Resolved → List Resolved
unfolding put_resolved
process_entry s links directory entries = entries
process_entry s links (file name none) entries = entries
process_entry s links (file name (some content)) entries =
    if not (s.is_yaml name)
    then entries
    else elim (deployment_of_digest (calculate_digest s.formats content) links) [
      | none ↦ entries
      | some id ↦ elim (s.formats.read_descriptor content) [
        | none ↦ entries
        | some d ↦
            put_resolved
              (record {
                deployment_id = id;
                digest = calculate_digest s.formats content;
                descriptor = some d;
              })
              entries
      ]
    ]

unfoldable pub process_entries :
    Server → List DeploymentLink → List ArchiveEntry → List Resolved → List Resolved
unfolding process_entry
process_entries s links [] entries = entries
process_entries s links (e ∷ es) entries =
    process_entries s links es (process_entry s links e entries)

-- fetchBundleOnce with processBundleArchive; `none` is a bundle that is not used.
unfoldable pub fetch_bundle_once :
    Server → String → Option BundleLink → List DeploymentLink → Option (List Resolved)
unfolding process_entries
fetch_bundle_once s base bundle links = elim bundle [
  | none ↦ some []
  | some b ↦ if b.url == "" then some [] else elim (s.get (resolve_url base b.url)) [
    | none ↦ none
    | some raw ↦
        if not (calculate_digest s.formats raw == b.digest)
        then none
        else elim (s.read_archive raw) [
          | none ↦ none
          | some es ↦ some (process_entries s links es [])
        ]
  ]
]
