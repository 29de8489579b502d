-- ===== src/Agent/Revocations.antt =====
-- completed/miaf-poc/pkg/device-agent: revocations/client.go and identitymanager/checkrevocations.go
use specification_enhancemen.Prelude.{
  ℕ, String, ◌==◌, Bool, true, false, ◌&&◌, ◌||◌, not, Option, none, some, List, [], if◌then◌else◌,
  eqb, any,
}
use specification_enhancemen.Instant.{Instant}
use specification_enhancemen.Agent.{AgentState, Device, Leaf, persist, is_success}

-- A response of the revocation endpoint: `fingerprints` are those of the list, none for a body that is
-- no list.
pub record HttpAnswer : Type 0 where
  pub status : ℕ
  pub etag : String
  pub last_modified : String
  pub fingerprints : Option (List String)

-- revocations.Result
pub record FetchResult : Type 0 where
  pub status : ℕ
  pub is_not_modified : Bool
  pub fingerprints : List String
  pub etag : String
  pub last_modified : String

-- revocations.Fetch; `serve` answers a request with these headers If-None-Match and If-Modified-Since.
unfoldable pub fetch : (String → String → Option HttpAnswer) → String → String → Option FetchResult
fetch serve etag last_modified = elim (serve etag (if etag == "" then last_modified else "")) [
  | none ↦ none
  | some a ↦
      let seen : FetchResult = record {
        status = a.status;
        is_not_modified = eqb a.status 304;
        fingerprints = [];
        etag = if eqb a.status 304 then a.etag else "";
        last_modified = if eqb a.status 304 then a.last_modified else "";
      } in
      if eqb a.status 200
      then elim a.fingerprints [
        | none ↦ none
        | some fps ↦ some (record {
          status = 200;
          is_not_modified = false;
          fingerprints = fps;
          etag = a.etag;
          last_modified = a.last_modified;
        })
      ]
      else some seen
]

-- What is outside of handleCheckRevocations in one command. `read_cert` is the certificate file as
-- read, none where that fails.
pub record CheckWorld : Type 0 where
  pub now : Instant
  pub client_ready : Bool
  pub serve : String → String → Option HttpAnswer
  pub read_cert : String → Option String
  pub parse_leaf : String → Option Leaf
  pub saves : Bool

-- The state with the validators of the answer
unfoldable pub keep_validators : Instant → FetchResult → AgentState → AgentState
keep_validators now res s =
    if is_success res.status && not res.is_not_modified
    then record s {
      last_revocations_check_at = now;
      revocations_etag = res.etag;
      revocations_last_modified = res.last_modified;
    }
    else record s { last_revocations_check_at = now }

-- ContainsFingerprint of the own leaf
unfoldable pub lists_own : FetchResult → Option Leaf → Bool
lists_own res none = false
lists_own res (some leaf) = any (λ fp. fp == leaf.fingerprint_hex) res.fingerprints

-- handleCheckRevocations once it is known whether the own SVID is listed
unfoldable pub mark_revoked_now : CheckWorld → Bool → Device → Option Bool × Device
unfolding persist
mark_revoked_now w listed d =
    let marked =
      if listed && eqb d.state.revoked_at 0
      then record d { state = record d.state { revoked_at = w.now }; revoked = true }
      else d in
    (if w.saves then some listed else none, persist w.saves marked)

-- handleCheckRevocations with the list and what the certificate file reads as
unfoldable pub look_for_own :
    CheckWorld → FetchResult → Option String → Device → Option Bool × Device
unfolding lists_own mark_revoked_now
look_for_own w res none d = (none, d)
look_for_own w res (some raw) d = mark_revoked_now w (lists_own res (w.parse_leaf raw)) d

-- handleCheckRevocations from the answer on
unfoldable pub take_result : CheckWorld → Option FetchResult → Device → Option Bool × Device
unfolding keep_validators mark_revoked_now look_for_own
take_result w none d = (none, d)
take_result w (some res) d =
    let kept = record d { state = keep_validators w.now res d.state } in
    if res.is_not_modified || not (eqb res.status 200)
    then mark_revoked_now w false kept
    else look_for_own w res (w.read_cert d.cert_file) kept

-- handleCheckRevocations; the reply is none for an error, and otherwise OwnSVIDListed.
unfoldable pub handle_check : CheckWorld → Device → Option Bool × Device
unfolding fetch take_result
handle_check w d =
    if w.client_ready
    then take_result w (fetch w.serve d.state.revocations_etag d.state.revocations_last_modified) d
    else (none, d)
