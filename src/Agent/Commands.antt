-- ===== src/Agent/Commands.antt =====
-- completed/miaf-poc/pkg/device-agent: bundle/client.go and identitymanager's refreshbundle.go, status.go,
-- commands.go and manager.go
use specification_enhancemen.Prelude.{
  ℕ, String, Bool, true, false, not, Option, none, some, List, [], ◌∷◌, ◌++◌, if◌then◌else◌, eqb,
  length,
}
use specification_enhancemen.Instant.{Instant}
use specification_enhancemen.Agent.{Device, persist}
use specification_enhancemen.Agent.Renewing.{RenewWorld, RenewReply, handle_renew}
use specification_enhancemen.Agent.JwtCaching.{ExchangeWorld, ExchangeReply, handle_exchange_jwt}
use specification_enhancemen.Agent.Revocations.{CheckWorld, handle_check}

-- bundle.Fetch: `serve` answers a request with this If-Modified-Since with a status and Last-Modified,
-- none where there is no answer or its body cannot be read. The result is NotModified and LastModified.
unfoldable pub fetch_bundle : (String → Option (ℕ × String)) → String → Option (Bool × String)
fetch_bundle serve if_modified_since = elim (serve if_modified_since) [
  | none ↦ none
  | some (status, last_modified) ↦
      if eqb status 200
      then some (false, last_modified)
      else if eqb status 304
      then some (true, last_modified)
      else none
]

pub record RefreshWorld : Type 0 where
  pub now : Instant
  pub client_ready : Bool
  pub serve : String → Option (ℕ × String)
  pub saves : Bool

-- handleRefreshBundle from the answer on
unfoldable pub keep_bundle :
    RefreshWorld → Option (Bool × String) → Device → Option (Bool × String) × Device
unfolding persist
keep_bundle w none d = (none, d)
keep_bundle w (some (unmodified, last_modified)) d =
    let kept = if unmodified then d.state.bundle_last_modified else last_modified in
    let refreshed = record d {
      state = record d.state { last_bundle_refresh_at = w.now; bundle_last_modified = kept };
    } in
    (if w.saves then some (unmodified, kept) else none, persist w.saves refreshed)

-- handleRefreshBundle; the reply is none for an error, and otherwise NotModified and the kept
-- Last-Modified.
unfoldable pub handle_refresh_bundle : RefreshWorld → Device → Option (Bool × String) × Device
unfolding fetch_bundle keep_bundle
handle_refresh_bundle w d =
    if w.client_ready
    then keep_bundle w (fetch_bundle w.serve d.state.bundle_last_modified) d
    else (none, d)

pub record StatusReply : Type 0 where
  pub spiffe_id : String
  pub serial : String
  pub expires_at : Instant
  pub last_renewal_at : Instant
  pub last_bundle_refresh_at : Instant
  pub last_revocations_check_at : Instant
  pub revoked_at : Instant
  pub bundle_last_modified : String
  pub revocations_etag : String
  pub revocations_last_modified : String
  pub jwt_cache_size : ℕ

-- handleStatus
unfoldable pub handle_status : Device → StatusReply
handle_status d = record {
  spiffe_id = d.state.spiffe_id;
  serial = d.state.serial;
  expires_at = d.state.expires_at;
  last_renewal_at = d.state.last_renewal_at;
  last_bundle_refresh_at = d.state.last_bundle_refresh_at;
  last_revocations_check_at = d.state.last_revocations_check_at;
  revoked_at = d.state.revoked_at;
  bundle_last_modified = d.state.bundle_last_modified;
  revocations_etag = d.state.revocations_etag;
  revocations_last_modified = d.state.revocations_last_modified;
  jwt_cache_size = elim d.cache [ none ↦ 0 | some c ↦ length c.entries ];
}

-- Cmd
pub data Command : Type 0 where
  renew : RenewWorld → Command
  refresh : RefreshWorld → Command
  check : CheckWorld → Command
  jwt : ExchangeWorld → (audiences : List String) → (ttl : ℕ) → Command
  status stop unset : Command

-- What the manager writes to the channel of a command
pub data CommandReply : Type 0 where
  renew_reply : RenewReply → CommandReply
  refresh_reply : Option (Bool × String) → CommandReply
  check_reply : Option Bool → CommandReply
  jwt_reply : ExchangeReply → CommandReply
  status_reply : StatusReply → CommandReply
  no_reply : CommandReply

-- dispatch
unfoldable pub dispatch : Command → Device → CommandReply × Device
unfolding handle_renew handle_refresh_bundle handle_check handle_exchange_jwt handle_status
dispatch (renew w) d = let r = handle_renew w d in (renew_reply r.0, r.1)
dispatch (refresh w) d = let r = handle_refresh_bundle w d in (refresh_reply r.0, r.1)
dispatch (check w) d = let r = handle_check w d in (check_reply r.0, r.1)
dispatch (jwt w audiences ttl) d =
    let r = handle_exchange_jwt w audiences ttl d in (jwt_reply r.0, r.1)
dispatch status d = (status_reply (handle_status d), d)
dispatch stop d = (no_reply, d)
dispatch unset d = (no_reply, d)

abbrev pub is_stop : Command → Bool
is_stop stop = true
is_stop _ = false

-- The loop over the commands, with the reply to each, until a stop
unfoldable pub serve_commands : List Command → Device → List CommandReply × Device
unfolding dispatch
serve_commands [] d = ([], d)
serve_commands (c ∷ cs) d =
    let now = dispatch c d in
    let later = serve_commands cs now.1 in
    if is_stop c then (now.0 ∷ [], now.1) else (now.0 ∷ later.0, later.1)

-- The start of the loop: the state is what the last Save wrote.
unfoldable pub load_state : Device → Device
load_state d = record d { state = d.state_file; revoked = not (eqb d.state_file.revoked_at 0) }

-- One run of the process: a new cache with this threshold, and the loop
unfoldable pub run_process : ℕ → List Command → Device → List CommandReply × Device
unfolding load_state serve_commands
run_process threshold cs d =
    serve_commands cs
      (load_state (record d { cache = some (record { threshold = threshold; entries = [] }) }))

-- One process after another on the same files
unfoldable pub run_processes : List (ℕ × List Command) → Device → List CommandReply × Device
unfolding run_process
run_processes [] d = ([], d)
run_processes ((threshold, cs) ∷ runs) d =
    let first = run_process threshold cs d in
    let later = run_processes runs first.1 in (first.0 ++ later.0, later.1)
