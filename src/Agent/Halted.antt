-- ===== src/Agent/Halted.antt =====
-- identitymanager/manager.go, checkrevocations.go: a device that has seen its own revocation
use specification_enhancemen.Prelude.{
  ℕ, String, Bool, true, false, ◌||◌, not, eqb, Option, none, some, List, [], ◌∷◌, ◌≡◌, refl, arith,
  All, Bool-cases, inl, inr, All-append, ◌∙◌,
}
use specification_enhancemen.Instant.{Instant}
use specification_enhancemen.Agent.{AgentState, Device, persist}
use specification_enhancemen.Agent.Renewing.{RenewWorld, RenewReply, renewed, handle_renew}
use specification_enhancemen.Agent.JwtCaching.{
  ExchangeWorld, ExchangeReply, token_issued, token_cached, handle_exchange_jwt,
}
use specification_enhancemen.Agent.Revocations.{
  CheckWorld, FetchResult, fetch, keep_validators, lists_own, mark_revoked_now, look_for_own,
  take_result, handle_check,
}
use specification_enhancemen.Agent.Commands.{
  RefreshWorld, Command, renew, refresh, check, jwt, status, stop, unset, CommandReply, renew_reply,
  jwt_reply, dispatch, keep_bundle, handle_refresh_bundle, fetch_bundle, is_stop, serve_commands,
  load_state, run_process, run_processes,
}

-- The device knows that it is revoked, and its state file says so.
pub record IsHalted (d : Device) : Type 0 where
  pub halted : d.revoked ≡ true
  pub marked : eqb d.state.revoked_at 0 ≡ false
  pub saved : eqb d.state_file.revoked_at 0 ≡ false

-- The device is halted and has the certificate and the key that it had before.
pub record StaysHalted (before after : Device) : Type 0 where
  pub halts : IsHalted after
  pub keeps_cert : after.cert_file ≡ before.cert_file
  pub keeps_key : after.key_file ≡ before.key_file

renews : RenewReply → Bool
renews (renewed _ _ _) = true
renews _ = false

issues : ExchangeReply → Bool
issues (token_issued _ _ _) = true
issues (token_cached _ _) = true
issues _ = false

-- The reply hands out a new SVID or a JWT SVID.
unfoldable pub grants : CommandReply → Bool
unfolding renews issues
grants (renew_reply r) = renews r
grants (jwt_reply r) = issues r
grants _ = false

-- A handler writes the state, with the instant of revocation as it was.
update-StaysHalted :
    (d : Device) (st : AgentState) (saves : Bool)
    → IsHalted d
    → st.revoked_at ≡ d.state.revoked_at
    → StaysHalted d (persist saves (record d { state = st }))
unfolding persist
update-StaysHalted d st true h same = record {
  halts = record { halted = h.halted; marked = rw same h.marked; saved = rw same h.marked };
  keeps_cert = refl;
  keeps_key = refl;
}
update-StaysHalted d st false h same = record {
  halts = record { halted = h.halted; marked = rw same h.marked; saved = h.saved };
  keeps_cert = refl;
  keeps_key = refl;
}

pub keep_validators-revoked_at :
    (now : Instant) (res : FetchResult) (s : AgentState)
    → (keep_validators now res s).revoked_at ≡ s.revoked_at
unfolding keep_validators
keep_validators-revoked_at now res s = ground arith

mark_revoked_now-StaysHalted :
    (w : CheckWorld) (listed : Bool) (d : Device) (st : AgentState)
    → IsHalted d
    → st.revoked_at ≡ d.state.revoked_at
    → StaysHalted d (mark_revoked_now w listed (record d { state = st })).1
unfolding mark_revoked_now
mark_revoked_now-StaysHalted w true d st h same =
    let still : eqb st.revoked_at 0 ≡ false = rw same h.marked in
    rw still (update-StaysHalted d st w.saves h same)
mark_revoked_now-StaysHalted w false d st h same = update-StaysHalted d st w.saves h same

same-StaysHalted : (d : Device) → IsHalted d → StaysHalted d d
same-StaysHalted d h = record { halts = h; keeps_cert = refl; keeps_key = refl }

look_for_own-StaysHalted :
    (w : CheckWorld) (res : FetchResult) (file : Option String) (d : Device) (st : AgentState)
    → IsHalted d
    → st.revoked_at ≡ d.state.revoked_at
    → StaysHalted d (look_for_own w res file (record d { state = st })).1
unfolding look_for_own
look_for_own-StaysHalted w res none d st h same = record {
  halts = record { halted = h.halted; marked = rw same h.marked; saved = h.saved };
  keeps_cert = refl;
  keeps_key = refl;
}
look_for_own-StaysHalted w res (some raw) d st h same =
    mark_revoked_now-StaysHalted w (lists_own res (w.parse_leaf raw)) d st h same

take_result-StaysHalted :
    (w : CheckWorld) (o : Option FetchResult) (d : Device)
    → IsHalted d
    → StaysHalted d (take_result w o d).1
unfolding take_result
take_result-StaysHalted w none d h = same-StaysHalted d h
take_result-StaysHalted w (some res) d h =
    let st = keep_validators w.now res d.state in
    let same = keep_validators-revoked_at w.now res d.state in
    elim (Bool-cases (res.is_not_modified || not (eqb res.status 200))) [
      | inl e ↦ rw e (mark_revoked_now-StaysHalted w false d st h same)
      | inr e ↦ rw e (look_for_own-StaysHalted w res (w.read_cert d.cert_file) d st h same)
    ]

handle_check-StaysHalted :
    (w : CheckWorld) (d : Device) → IsHalted d → StaysHalted d (handle_check w d).1
unfolding handle_check
handle_check-StaysHalted w d h = elim (Bool-cases w.client_ready) [
  | inl e ↦ rw e (
      take_result-StaysHalted w
        (fetch w.serve d.state.revocations_etag d.state.revocations_last_modified) d h)
  | inr e ↦ rw e (same-StaysHalted d h)
]

keep_bundle-StaysHalted :
    (w : RefreshWorld) (o : Option (Bool × String)) (d : Device)
    → IsHalted d
    → StaysHalted d (keep_bundle w o d).1
unfolding keep_bundle
keep_bundle-StaysHalted w none d h = same-StaysHalted d h
keep_bundle-StaysHalted w (some (unmodified, last_modified)) d h =
    update-StaysHalted d _ w.saves h refl

handle_refresh_bundle-StaysHalted :
    (w : RefreshWorld) (d : Device) → IsHalted d → StaysHalted d (handle_refresh_bundle w d).1
unfolding handle_refresh_bundle
handle_refresh_bundle-StaysHalted w d h = elim (Bool-cases w.client_ready) [
  | inl e ↦ rw e (keep_bundle-StaysHalted w (fetch_bundle w.serve d.state.bundle_last_modified) d h)
  | inr e ↦ rw e (same-StaysHalted d h)
]

handle_renew-halted :
    (w : RenewWorld) (d : Device) → d.revoked ≡ true → handle_renew w d ≡ (RenewReply.is_revoked, d)
unfolding handle_renew
handle_renew-halted w d h = ground (arith, h)

handle_exchange_jwt-halted :
    (w : ExchangeWorld) (audiences : List String) (ttl : ℕ) (d : Device)
    → d.revoked ≡ true
    → handle_exchange_jwt w audiences ttl d ≡ (ExchangeReply.is_revoked, d)
unfolding handle_exchange_jwt
handle_exchange_jwt-halted w audiences ttl d h = ground (arith, h)

dispatch-StaysHalted :
    (c : Command) (d : Device)
    → IsHalted d
    → (grants (dispatch c d).0 ≡ false) × StaysHalted d (dispatch c d).1
unfolding dispatch grants
dispatch-StaysHalted (renew w) d h =
    let refused = handle_renew-halted w d h.halted in
    (rw refused refl, rw refused (same-StaysHalted d h))
dispatch-StaysHalted (refresh w) d h = (refl, handle_refresh_bundle-StaysHalted w d h)
dispatch-StaysHalted (check w) d h = (refl, handle_check-StaysHalted w d h)
dispatch-StaysHalted (jwt w audiences ttl) d h =
    let refused = handle_exchange_jwt-halted w audiences ttl d h.halted in
    (rw refused refl, rw refused (same-StaysHalted d h))
dispatch-StaysHalted status d h = (refl, same-StaysHalted d h)
dispatch-StaysHalted stop d h = (refl, same-StaysHalted d h)
dispatch-StaysHalted unset d h = (refl, same-StaysHalted d h)

pub then_StaysHalted : (a b c : Device) → StaysHalted a b → StaysHalted b c → StaysHalted a c
then_StaysHalted a b c g h = record {
  halts = h.halts;
  keeps_cert = h.keeps_cert ∙ g.keeps_cert;
  keeps_key = h.keeps_key ∙ g.keeps_key;
}

-- Nothing is granted, and the device stays halted.
abbrev pub IsSilent : List CommandReply × Device → Device → Type 0
IsSilent out d = All (λ r. grants r ≡ false) out.0 × StaysHalted d out.1

pub serve_commands-IsSilent :
    (cs : List Command) (d : Device) → IsHalted d → IsSilent (serve_commands cs d) d
unfolding serve_commands
serve_commands-IsSilent [] d h = (tt, same-StaysHalted d h)
serve_commands-IsSilent (c ∷ cs) d h =
    let now = dispatch-StaysHalted c d h in
    let later = serve_commands-IsSilent cs (dispatch c d).1 now.1.halts in
    elim (Bool-cases (is_stop c)) [
      | inl e ↦ rw e ((now.0, tt), now.1)
      | inr e ↦ rw e ((now.0, later.0), then_StaysHalted _ _ _ now.1 later.1)
    ]

run_process-IsSilent :
    (threshold : ℕ) (cs : List Command) (d : Device)
    → IsHalted d
    → IsSilent (run_process threshold cs d) d
unfolding run_process load_state
run_process-IsSilent threshold cs d h =
    let loaded =
      load_state (record d { cache = some (record { threshold = threshold; entries = [] }) }) in
    let restarted : StaysHalted d loaded = record {
      halts = record { halted = rw h.saved refl; marked = h.saved; saved = h.saved };
      keeps_cert = refl;
      keeps_key = refl;
    } in
    let out = serve_commands-IsSilent cs loaded restarted.halts in
    (out.0, then_StaysHalted _ _ _ restarted out.1)

pub run_processes-IsSilent :
    (runs : List (ℕ × List Command)) (d : Device) → IsHalted d → IsSilent (run_processes runs d) d
unfolding run_processes
run_processes-IsSilent [] d h = (tt, same-StaysHalted d h)
run_processes-IsSilent ((threshold, cs) ∷ runs) d h =
    let first = run_process-IsSilent threshold cs d h in
    let later = run_processes-IsSilent runs (run_process threshold cs d).1 first.1.halts in
    (All-append _ _ _ first.0 later.0, then_StaysHalted _ _ _ first.1 later.1)
