-- ===== src/Fleet/Handler.antt =====
-- completed/sup_desired_state_via_manifest_api/pkg/wfm/adapter/transport/http/deployment.go: the
-- handlers. A body is none where it cannot be read; the texts of errors and the log are left out.
use specification_enhancemen.Prelude.{
  ℕ, String, ◌<>◌, ◌==◌, Bool, ◌||◌, not, Option, none, some, List, [], ok, err, if◌then◌else◌, map,
}
use specification_enhancemen.CsrParsing.{contains_ascii}
use specification_enhancemen.Fleet.{FleetErr, Deployment, Manifest, Formats, calculate_digest}
use specification_enhancemen.Fleet.Tables.{Tables}
use specification_enhancemen.Fleet.Repository.{get_manifest, get_deployment}
use specification_enhancemen.Fleet.Service.{
  create_deployment, update_deployment, delete_deployment, get_bundle,
}
use specification_enhancemen.Fleet.Fetching.{DeploymentLink, ManifestResponse}
use specification_enhancemen.Fleet.Etags.{client_has_etag}

-- What a handler writes: the status, the headers ETag, Content-Type, Cache-Control and Location, empty
-- where they are not set, and the body
pub record Response : Type 0 where
  pub status : ℕ
  pub etag : String
  pub content_type : String
  pub cache_control : String
  pub location : String
  pub body : String

abbrev pub bare : ℕ → Response
bare status = record {
  status = status;
  etag = "";
  content_type = "";
  cache_control = "";
  location = "";
  body = "";
}

abbrev pub not_modified : String → Response
not_modified etag = record (bare 304) { etag = etag }

abbrev pub immutable : String
immutable = "public, max-age=31536000, immutable"

-- fmt.Sprintf("\"%s\"", digest)
unfoldable pub quoted : String → String
quoted digest = "\"" <> digest <> "\""

unfoldable pub deployment_url : String → String → String → String
deployment_url device_id id digest =
    "/api/v1/devices/" <> device_id <> "/deployments/" <> id <> "/" <> digest

unfoldable pub bundle_url : String → String → String
bundle_url device_id digest = "/api/v1/devices/" <> device_id <> "/bundles/" <> digest

-- The status of an error, in CreateDeployment
unfoldable pub create_status : FleetErr → ℕ
create_status FleetErr.device_not_found = 404
create_status FleetErr.invalid_descriptor = 400
create_status FleetErr.internal = 500
create_status FleetErr.manifest_not_found = 500
create_status FleetErr.deployment_not_found = 500
create_status FleetErr.bundle_not_found = 500

-- The status of an error, in UpdateDeployment
unfoldable pub update_status : FleetErr → ℕ
update_status FleetErr.device_not_found = 404
update_status FleetErr.deployment_not_found = 404
update_status FleetErr.invalid_descriptor = 400
update_status FleetErr.internal = 500
update_status FleetErr.manifest_not_found = 500
update_status FleetErr.bundle_not_found = 500

-- The status of an error, in DeleteDeployment and GetDeployment
unfoldable pub lookup_status : FleetErr → ℕ
lookup_status FleetErr.device_not_found = 404
lookup_status FleetErr.deployment_not_found = 404
lookup_status FleetErr.invalid_descriptor = 500
lookup_status FleetErr.internal = 500
lookup_status FleetErr.manifest_not_found = 500
lookup_status FleetErr.bundle_not_found = 500

-- The status of an error, in GetBundle
unfoldable pub bundle_status : FleetErr → ℕ
bundle_status FleetErr.device_not_found = 404
bundle_status FleetErr.bundle_not_found = 404
bundle_status FleetErr.invalid_descriptor = 500
bundle_status FleetErr.internal = 500
bundle_status FleetErr.manifest_not_found = 500
bundle_status FleetErr.deployment_not_found = 500

-- The response with a stored deployment
unfoldable pub stored : ℕ → String → Deployment → Response
unfolding quoted deployment_url
stored status device_id d = record {
  status = status;
  etag = quoted d.descriptor_digest;
  content_type = "application/yaml";
  cache_control = "";
  location = deployment_url device_id d.id d.descriptor_digest;
  body = d.descriptor;
}

-- CreateDeployment
unfoldable pub handle_create :
    Formats → String → String → Option String → Tables → Response × Tables
unfolding create_status stored
handle_create f uuid device_id body t = elim body [
  | none ↦ (bare 400, t)
  | some text ↦
      let (answer, t₁) = create_deployment f uuid device_id text t in
      (elim answer [ err e ↦ bare (create_status e) | ok d ↦ stored 201 device_id d ], t₁)
]

-- UpdateDeployment
unfoldable pub handle_update :
    Formats → String → String → Option String → Tables → Response × Tables
unfolding update_status stored
handle_update f device_id deployment_id body t = elim body [
  | none ↦ (bare 400, t)
  | some text ↦
      let (answer, t₁) = update_deployment f device_id deployment_id text t in
      (elim answer [ err e ↦ bare (update_status e) | ok d ↦ stored 200 device_id d ], t₁)
]

-- DeleteDeployment
unfoldable pub handle_delete : Formats → String → String → Tables → Response × Tables
unfolding lookup_status
handle_delete f device_id deployment_id t =
    let (answer, t₁) = delete_deployment f device_id deployment_id t in
    (elim answer [ err e ↦ bare (lookup_status e) | ok _ ↦ bare 204 ], t₁)

-- validateManifestAcceptHeader
unfoldable pub accepts_manifest : String → Bool
accepts_manifest accept =
    accept == ""
    || contains_ascii accept "application/vnd.margo.manifest.v1+json"
    || contains_ascii accept "*/*"
    || contains_ascii accept "application/*"

abbrev pub deployment_link : String → Deployment → DeploymentLink
deployment_link device_id d = record {
  deployment_id = d.id;
  digest = d.descriptor_digest;
  url = deployment_url device_id d.id d.descriptor_digest;
}

-- The response that GetDeploymentManifest makes of a manifest
unfoldable pub manifest_response : String → Manifest → ManifestResponse
unfolding bundle_url deployment_url
manifest_response device_id m = record {
  manifest_version = m.version;
  bundle =
      if m.bundle_digest == ""
      then none
      else some (record {
        media_type = "application/vnd.margo.bundle.v1+tar+gzip";
        digest = m.bundle_digest;
        url = bundle_url device_id m.bundle_digest;
      });
  deployments = map (deployment_link device_id) m.deployments;
}

-- The conditional answer with the body `json`
unfoldable pub answer_manifest : Formats → List String → Option String → Response
unfolding quoted
answer_manifest f if_none_match json = elim json [
  | none ↦ bare 500
  | some text ↦
      let etag = quoted (calculate_digest f text) in
      if client_has_etag if_none_match etag then not_modified etag else record (bare 200) {
        etag = etag;
        content_type = "application/vnd.margo.manifest.v1+json";
        body = text;
      }
]

-- GetDeploymentManifest; `to_json` is json.Marshal.
unfoldable pub handle_manifest :
    Formats → (ManifestResponse → Option String) → String → String → List String → Tables → Response
unfolding accepts_manifest manifest_response answer_manifest
handle_manifest f to_json device_id accept if_none_match t =
    if not (accepts_manifest accept) then bare 406 else elim (get_manifest device_id t) [
      | ok m ↦ answer_manifest f if_none_match (to_json (manifest_response device_id m))
      | err e ↦ elim e [
        | FleetErr.manifest_not_found ↦ answer_manifest f if_none_match (
            to_json (
              manifest_response device_id (record {
                version = 1;
                bundle_archive = "";
                bundle_digest = "";
                deployments = [];
              })))
        | FleetErr.device_not_found ↦ bare 404
        | FleetErr.invalid_descriptor ↦ bare 500
        | FleetErr.internal ↦ bare 500
        | FleetErr.deployment_not_found ↦ bare 500
        | FleetErr.bundle_not_found ↦ bare 500
      ]
    ]

-- GetDeployment
unfoldable pub handle_deployment : String → String → String → List String → Tables → Response
unfolding lookup_status quoted
handle_deployment device_id deployment_id digest if_none_match t =
    elim (get_deployment device_id deployment_id digest t) [
      | err e ↦ bare (lookup_status e)
      | ok d ↦
          let etag = quoted d.descriptor_digest in
          if client_has_etag if_none_match etag then not_modified etag else record (bare 200) {
            etag = etag;
            content_type = "application/yaml";
            cache_control = immutable;
            body = d.descriptor;
          }
    ]

-- GetBundle
unfoldable pub handle_bundle : String → String → List String → Tables → Response
unfolding bundle_status quoted
handle_bundle device_id digest if_none_match t = elim (get_bundle device_id digest t) [
  | err e ↦ bare (bundle_status e)
  | ok archive ↦
      let etag = quoted digest in
      if client_has_etag if_none_match etag then not_modified etag else record (bare 200) {
        etag = etag;
        content_type = "application/vnd.margo.bundle.v1+tar+gzip";
        cache_control = immutable;
        body = archive;
      }
]
