-- ===== src/Agent/Detection.antt =====
-- identitymanager/checkrevocations.go: a check whose list has the device's own certificate
use specification_enhancemen.Prelude.{
  ℕ, String, ◌==◌, true, false, eqb, any, Option, some, List, ◌≡◌, refl, if◌then◌else◌,
}
use specification_enhancemen.Agent.{Device, Leaf, persist}
use specification_enhancemen.Agent.Revocations.{
  CheckWorld, HttpAnswer, FetchResult, fetch, keep_validators, lists_own, mark_revoked_now,
  look_for_own, take_result, handle_check,
}
use specification_enhancemen.Agent.Commands.{Command, serve_commands, run_processes}
use specification_enhancemen.Agent.Halted.{
  StaysHalted, IsSilent, serve_commands-IsSilent, run_processes-IsSilent, then_StaysHalted,
  keep_validators-revoked_at,
}

-- The server's answer to this check
abbrev pub answer_to : CheckWorld → Device → Option HttpAnswer
answer_to w d =
    w.serve d.state.revocations_etag
      (if d.state.revocations_etag == "" then d.state.revocations_last_modified else "")

-- The check gets a list that has the certificate in the device's file.
pub record Lists (w : CheckWorld) (d : Device) : Type 0 where
  pub answer : HttpAnswer
  pub listed : List String
  pub raw : String
  pub leaf : Leaf
  pub is_ready : w.client_ready ≡ true
  pub is_answered : answer_to w d ≡ some answer
  pub is_ok : answer.status ≡ 200
  pub is_list : answer.fingerprints ≡ some listed
  pub is_read : w.read_cert d.cert_file ≡ some raw
  pub is_parsed : w.parse_leaf raw ≡ some leaf
  pub is_listed : any (λ fp. fp == leaf.fingerprint_hex) listed ≡ true

-- What Fetch makes of that answer
abbrev pub fetched_list : HttpAnswer → List String → FetchResult
fetched_list a listed = record {
  status = 200;
  is_not_modified = false;
  fingerprints = listed;
  etag = a.etag;
  last_modified = a.last_modified;
}

pub fetch-listed :
    (w : CheckWorld) (d : Device) (a : HttpAnswer) (listed : List String)
    → answer_to w d ≡ some a
    → a.status ≡ 200
    → a.fingerprints ≡ some listed
    → fetch w.serve d.state.revocations_etag d.state.revocations_last_modified
      ≡ some (fetched_list a listed)
unfolding fetch
fetch-listed w d a listed answered good list = rw (answered, fetch) (rw good (rw list refl))

-- The device after the check
handle_check-marks :
    (w : CheckWorld) (d : Device) (l : Lists w d)
    → handle_check w d
      ≡ mark_revoked_now w true
          (record d { state = keep_validators w.now (fetched_list l.answer l.listed) d.state })
unfolding handle_check take_result look_for_own lists_own
handle_check-marks w d l = rw l.is_ready (
    rw (fetch-listed w d l.answer l.listed l.is_answered l.is_ok l.is_list)
      (rw l.is_read (rw l.is_parsed (rw l.is_listed refl))))

mark_revoked_now-halts :
    (w : CheckWorld) (d : Device) (res : FetchResult)
    → w.saves ≡ true
    → eqb d.state.revoked_at 0 ≡ true
    → eqb w.now 0 ≡ false
    → let out = mark_revoked_now w true (record d { state = keep_validators w.now res d.state }) in
      (out.0 ≡ some true) × StaysHalted d out.1
unfolding mark_revoked_now persist
mark_revoked_now-halts w d res saves fresh after =
    let same = keep_validators-revoked_at w.now res d.state in
    let unmarked : eqb (keep_validators w.now res d.state).revoked_at 0 ≡ true = rw same fresh in
    rw saves (
      rw unmarked (
        refl,
        record {
          halts = record { halted = refl; marked = after; saved = after };
          keeps_cert = refl;
          keeps_key = refl;
        },
      ))

-- A check that gets a list with the device's own certificate, and whose state can be saved, reports it.
-- From then on every command of this process and of every later process on the same files gets no new
-- SVID and no JWT SVID, and the certificate and key files stay as they are.
pub handle_check-IsSilent :
    (w : CheckWorld) (d : Device) (cs : List Command) (runs : List (ℕ × List Command))
    → Lists w d
    → w.saves ≡ true
    → eqb d.state.revoked_at 0 ≡ true
    → eqb w.now 0 ≡ false
    → let out = handle_check w d in
      let rest = serve_commands cs out.1 in
      (out.0 ≡ some true)
      × StaysHalted d out.1
      × IsSilent rest d
      × IsSilent (run_processes runs rest.1) d
handle_check-IsSilent w d cs runs l saves fresh after =
    let marked = mark_revoked_now-halts w d (fetched_list l.answer l.listed) saves fresh after in
    rw (handle_check-marks w d l) (
      let kept = keep_validators w.now (fetched_list l.answer l.listed) d.state in
      let d₁ = (mark_revoked_now w true (record d { state = kept })).1 in
      let rest = serve_commands-IsSilent cs d₁ marked.1.halts in
      let later = run_processes-IsSilent runs (serve_commands cs d₁).1 rest.1.halts in
      (
        marked.0,
        marked.1,
        (rest.0, then_StaysHalted _ _ _ marked.1 rest.1),
        (later.0, then_StaysHalted _ _ _ marked.1 (then_StaysHalted _ _ _ rest.1 later.1)),
      ))
