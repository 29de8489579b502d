-- ===== src/Examples/Agents.antt =====
-- Instances of the theorems on the agent's identity manager.
use specification_enhancemen.Prelude.{
  ok, ◌++◌, String, ◌==◌, true, false, Option, none, some, List, [], ◌∷◌, ◌≡◌, refl, if◌then◌else◌,
  All, map,
}
use specification_enhancemen.Store.{RevocationEntry, Db}
use specification_enhancemen.Store.RevokedSvids.{list_revocations, revoke}
use specification_enhancemen.Transport.Conditional.{
  HttpFormats, weak_etag, matches_etag, split_commas,
}
use specification_enhancemen.Transport.Renewal.{trim_left, trim_right}
use specification_enhancemen.Instant.{text_lt}
use specification_enhancemen.Transport.Revocations.{RevocationListDto, list_dto, handle_revocations}
use specification_enhancemen.Agent.{AgentState, JwtCache, Device, Leaf}
use specification_enhancemen.Agent.Renewing.{RenewWorld, RenewAnswer, ready, handle_renew}
use specification_enhancemen.Agent.JwtCaching.{
  cache_key, get, ExchangeWorld, answered, token_issued, token_cached, handle_exchange_jwt,
}
use specification_enhancemen.Agent.Revocations.{CheckWorld, HttpAnswer, handle_check}
use specification_enhancemen.Agent.Commands.{
  Command, renew, check, jwt, status, stop, serve_commands, run_processes,
}
use specification_enhancemen.Agent.Halted.{StaysHalted, IsSilent}
use specification_enhancemen.Identity.Revocation.{revoke_spiffe_id}
use specification_enhancemen.Identity.Revocation.Listed.{IsSame}
use specification_enhancemen.Store.Identities.{get_ldi_by_spiffe_id, set_ldi_status}
use specification_enhancemen.Store.IssuedSvids.{is_outstanding, active_by_spiffe_id, mark_revoked}
use specification_enhancemen.Agent.Revoked.{handle_check-revoke_spiffe_id}
use specification_enhancemen.Agent.Propagation.{holds_older, read_response, Asks}
use specification_enhancemen.Agent.Missed.{Unread, IsCurrent, overlooks, handle_check-overlooks}
use specification_enhancemen.Agent.Reuse.{handle_exchange_jwt-reuses}
use specification_enhancemen.Examples.{at, empty_db, one_device, ldi_1, svid_a, spiffe_1}

abbrev agent_state : AgentState
agent_state = record {
  spiffe_id = spiffe_1;
  serial = "161";
  expires_at = at 900;
  last_enrolled = at 100;
  bundle_last_modified = "";
  revocations_etag = "W/\"no entry\"";
  revocations_last_modified = "";
  last_bundle_refresh_at = 0;
  last_revocations_check_at = 0;
  last_renewal_at = 0;
  revoked_at = 0;
}

abbrev jwt_cache : JwtCache
jwt_cache = record { threshold = at 300; entries = [] }

abbrev device : Device
device = record {
  state = agent_state;
  revoked = false;
  state_file = agent_state;
  cert_file = "leaf-a";
  key_file = "key-a";
  cache = some jwt_cache;
}

abbrev leaf_a : Leaf
leaf_a = record { serial_decimal = "161"; not_after = at 900; fingerprint_hex = "sha256:leaf-a" }

abbrev formats : HttpFormats
formats = record {
  short_digest = λ body. body;
  format_http_time = λ _. "a date";
  parse_http_time = λ _. none;
  format_rfc3339 = λ _. "an instant";
}

-- The tables after the revocation of the one device
abbrev one_revoked : Db
one_revoked = (revoke_spiffe_id (at 150) spiffe_1 "lost" one_device).1

abbrev entry_a : RevocationEntry
entry_a = record {
  serial_hex = "A1";
  fingerprint_hex = "sha256:leaf-a";
  revoked_at = at 150;
  reason = "lost";
  not_after = at 900;
}

-- The same list as a table
abbrev with_entry : Db
with_entry = record empty_db { revoked_svids = entry_a ∷ [] }

-- A stand-in for JSON: a list is written as its first fingerprint.
abbrev marshal : RevocationListDto → Option String
marshal dto = elim dto.revoked_svids [
  | [] ↦ some "no entry"
  | e ∷ _ ↦ some e.cert_fingerprint_sha256
]

abbrev unmarshal : String → Option RevocationListDto
unmarshal body =
    if body == "sha256:leaf-a"
    then some (record {
      last_updated = "an instant";
      revoked_svids =
          record {
            cert_fingerprint_sha256 = "sha256:leaf-a";
            serial_number = "A1";
            revoked_at = "an instant";
          }
          ∷ [];
    })
    else none

abbrev check_of : Db → CheckWorld
check_of db = record {
  now = at 200;
  client_ready = true;
  serve = λ etag since. some (
      read_response unmarshal (
        handle_revocations formats marshal (at 200)
          (record { if_none_match = etag; if_modified_since = since }) db));
  read_cert = λ file. some file;
  parse_leaf = λ raw. if raw == "leaf-a" then some leaf_a else none;
  saves = true;
}

abbrev check_a : CheckWorld
check_a = check_of one_revoked

abbrev renewal : RenewWorld
renewal = record {
  now = at 210;
  new_key = some "key-b";
  prepare = ready "";
  send = λ _ _. RenewAnswer.answered 200 "leaf-a";
  parse_leaf = λ _. some leaf_a;
  marshal_key = λ key. some key;
  writes_cert = true;
  writes_key = true;
  saves = true;
}

abbrev exchange : ExchangeWorld
exchange = record {
  now = at 220;
  client_ready = true;
  send = λ _ _ _. answered 200 "token-1" (at 900);
}

abbrev exchange_later : ExchangeWorld
exchange_later = record exchange { now = at 500; client_ready = false }

abbrev commands : List Command
commands = renew renewal ∷ jwt exchange ("api" ∷ []) 300 ∷ status ∷ stop ∷ []

-- Without a revocation the renewal replaces the files.
renews_test : (handle_renew renewal device).1.key_file ≡ "key-b"
unfolding handle_renew
renews_test = refl

-- The order of the audiences does not matter.
cache_key_test : cache_key ("b" ∷ "a" ∷ []) ≡ cache_key ("a" ∷ "b" ∷ [])
unfolding cache_key
cache_key_test = refl

listed_a : list_revocations (at 200) one_revoked ≡ (entry_a ∷ [], at 150)
unfolding list_revocations text_lt revoke_spiffe_id get_ldi_by_spiffe_id set_ldi_status
    active_by_spiffe_id is_outstanding mark_revoked revoke
listed_a = refl

writes_a : marshal (list_dto formats (list_revocations (at 200) one_revoked)) ≡ some "sha256:leaf-a"
unfolding list_dto
writes_a = rw listed_a refl

reads_a :
    unmarshal "sha256:leaf-a" ≡ some (list_dto formats (list_revocations (at 200) one_revoked))
unfolding list_dto
reads_a = rw listed_a refl

abbrev asks_a : Asks formats marshal unmarshal one_revoked check_a
asks_a = record {
  is_ready = refl;
  serves = λ etag since. refl;
  body = "sha256:leaf-a";
  writes = writes_a;
  reads = reads_a;
}

older_a : holds_older formats "sha256:leaf-a" agent_state ≡ true
unfolding holds_older matches_etag weak_etag trim_left trim_right split_commas
older_a = refl

is_alive : text_lt (at 200) (at 900) ≡ true
unfolding text_lt
is_alive = refl

one_outstanding : active_by_spiffe_id spiffe_1 (at 150) one_device ≡ [] ++ svid_a ∷ []
unfolding active_by_spiffe_id is_outstanding text_lt
one_outstanding = refl

only_svid : All (IsSame svid_a) (active_by_spiffe_id spiffe_1 (at 150) one_device)
only_svid = rw one_outstanding ((λ _. (refl, refl)), tt)

known_ldi : get_ldi_by_spiffe_id spiffe_1 one_device ≡ ok ldi_1
unfolding get_ldi_by_spiffe_id
known_ldi = refl

handle_check-revoke_spiffe_id_example :
    let out = handle_check check_a device in
    let rest = serve_commands commands out.1 in
    (out.0 ≡ some true)
    × StaysHalted device out.1
    × IsSilent rest device
    × IsSilent (run_processes ((at 300, commands) ∷ []) rest.1) device
handle_check-revoke_spiffe_id_example =
    handle_check-revoke_spiffe_id (at 150) spiffe_1 "lost" ldi_1 one_device svid_a [] [] formats
      marshal unmarshal check_a device commands ((at 300, commands) ∷ []) "leaf-a" leaf_a known_ldi
      one_outstanding only_svid tt asks_a older_a refl refl refl is_alive refl refl refl

-- The same check while the certificate file cannot be read, and a later one
abbrev unreadable : CheckWorld
unreadable = record (check_of with_entry) { read_cert = λ _. none }

abbrev current_etag : String
current_etag = "W/\"sha256:leaf-a\""

abbrev list_answer : HttpAnswer
list_answer = record {
  status = 200;
  etag = current_etag;
  last_modified = "a date";
  fingerprints = some ("sha256:leaf-a" ∷ []);
}

unread : Unread unreadable device current_etag
unfolding read_response handle_revocations list_dto list_revocations text_lt matches_etag trim_left
    trim_right split_commas
unread = record {
  answer = list_answer;
  listed = "sha256:leaf-a" ∷ [];
  is_ready = refl;
  is_answered = refl;
  is_ok = refl;
  is_list = refl;
  tags = refl;
  is_unread = refl;
}

current : IsCurrent current_etag (check_of with_entry)
unfolding read_response handle_revocations list_dto list_revocations text_lt matches_etag trim_left
    trim_right split_commas
current = record {
  answer = record {
    status = 304;
    etag = current_etag;
    last_modified = "a date";
    fingerprints = none;
  };
  is_answered = refl;
  is_unmodified = refl;
}

handle_check-overlooks_example :
    let first = handle_check unreadable device in
    let out = serve_commands (map check (check_of with_entry ∷ [])) first.1 in
    (first.0 ≡ none) × All (λ r. overlooks r ≡ true) out.0 × (out.1.revoked ≡ false)
handle_check-overlooks_example =
    handle_check-overlooks current_etag unreadable device (check_of with_entry ∷ []) refl unread
      refl (current, tt)

no_token : get ("api" ∷ []) (at 220) jwt_cache ≡ none
unfolding get
no_token = refl

handle_exchange_jwt-reuses_example :
    let first = handle_exchange_jwt exchange ("api" ∷ []) 300 device in
    let second = handle_exchange_jwt exchange_later ("api" ∷ []) 60 first.1 in
    (first.0 ≡ token_issued 200 "token-1" (at 900))
    × (second ≡ (token_cached "token-1" (at 900), first.1))
handle_exchange_jwt-reuses_example =
    handle_exchange_jwt-reuses exchange exchange_later ("api" ∷ []) 300 60 200 "token-1" (at 900)
      device jwt_cache refl refl no_token refl refl refl
