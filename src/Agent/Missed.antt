-- ===== src/Agent/Missed.antt =====
-- identitymanager/checkrevocations.go: a check that gets the list and cannot read the certificate file
use specification_enhancemen.Prelude.{
  String, ◌==◌, Bool, true, false, none, some, List, [], ◌∷◌, ◌≡◌, refl, ◌∙◌, All, map, ap, not,
  inl, inr, Bool-cases,
}
use specification_enhancemen.Agent.{Device, persist}
use specification_enhancemen.Agent.Revocations.{
  CheckWorld, HttpAnswer, FetchResult, fetch, keep_validators, mark_revoked_now, look_for_own,
  take_result, handle_check,
}
use specification_enhancemen.Agent.Commands.{
  check, CommandReply, check_reply, dispatch, serve_commands,
}
use specification_enhancemen.Agent.Detection.{answer_to, fetch-listed}

-- The check gets a list and the certificate file cannot be read.
pub record Unread (w : CheckWorld) (d : Device) (etag : String) : Type 0 where
  pub answer : HttpAnswer
  pub listed : List String
  pub is_ready : w.client_ready ≡ true
  pub is_answered : answer_to w d ≡ some answer
  pub is_ok : answer.status ≡ 200
  pub is_list : answer.fingerprints ≡ some listed
  pub tags : answer.etag ≡ etag
  pub is_unread : w.read_cert d.cert_file ≡ none

-- The server answers a request with this entity tag with 304.
pub record IsCurrent (etag : String) (w : CheckWorld) : Type 0 where
  pub answer : HttpAnswer
  pub is_answered : w.serve etag "" ≡ some answer
  pub is_unmodified : answer.status ≡ 304

-- The device keeps this entity tag and is not marked as revoked.
record IsUnaware (etag : String) (d : Device) : Type 0 where
  tag : d.state.revocations_etag ≡ etag
  unmarked : d.revoked ≡ false

handle_check-IsUnaware :
    (etag : String) (w : CheckWorld) (d : Device)
    → Unread w d etag
    → d.revoked ≡ false
    → ((handle_check w d).0 ≡ none) × IsUnaware etag (handle_check w d).1
unfolding handle_check take_result look_for_own keep_validators
handle_check-IsUnaware etag w d u free = rw u.is_ready (
    rw (fetch-listed w d u.answer u.listed u.is_answered u.is_ok u.is_list)
      (rw u.is_unread (refl, record { tag = u.tags; unmarked = free })))

abbrev unmodified_result : HttpAnswer → FetchResult
unmodified_result a = record {
  status = 304;
  is_not_modified = true;
  fingerprints = [];
  etag = a.etag;
  last_modified = a.last_modified;
}

fetch-unmodified :
    (w : CheckWorld) (etag last_modified : String)
    → (etag == "") ≡ false
    → (c : IsCurrent etag w) → fetch w.serve etag last_modified ≡ some (unmodified_result c.answer)
unfolding fetch
fetch-unmodified w etag last_modified tagged c =
    rw (tagged, fetch) (rw c.is_answered (rw c.is_unmodified refl))

-- The reply does not say that the own SVID is listed.
unfoldable pub overlooks : CommandReply → Bool
overlooks (check_reply (some listed)) = not listed
overlooks _ = true

-- A 304 leaves it so, whether the state can be saved or not.
take_result-IsUnaware :
    (etag : String) (w : CheckWorld) (d : Device) (a : HttpAnswer)
    → IsUnaware etag d
    → let out = take_result w (some (unmodified_result a)) d in
      (overlooks (check_reply out.0) ≡ true) × IsUnaware etag out.1
unfolding take_result keep_validators mark_revoked_now persist overlooks
take_result-IsUnaware etag w d a h = elim (Bool-cases w.saves) [
  | inl e ↦ rw e (refl, record { tag = h.tag; unmarked = h.unmarked })
  | inr e ↦ rw e (refl, record { tag = h.tag; unmarked = h.unmarked })
]

dispatch-IsUnaware :
    (etag : String) (w : CheckWorld) (d : Device)
    → (etag == "") ≡ false
    → IsCurrent etag w
    → IsUnaware etag d
    → (overlooks (dispatch (check w) d).0 ≡ true) × IsUnaware etag (dispatch (check w) d).1
unfolding dispatch handle_check overlooks
dispatch-IsUnaware etag w d tagged c h = elim (Bool-cases w.client_ready) [
  | inl e ↦
      let answer =
        ap (λ t. fetch w.serve t d.state.revocations_last_modified) h.tag
        ∙ fetch-unmodified w etag d.state.revocations_last_modified tagged c in
      rw e (rw answer (take_result-IsUnaware etag w d c.answer h))
  | inr e ↦ rw e (refl, h)
]

serve_commands-IsUnaware :
    (etag : String) (ws : List CheckWorld) (d : Device)
    → (etag == "") ≡ false
    → All (IsCurrent etag) ws
    → IsUnaware etag d
    → let out = serve_commands (map check ws) d in
      All (λ r. overlooks r ≡ true) out.0 × (out.1.revoked ≡ false)
unfolding serve_commands
serve_commands-IsUnaware etag [] d tagged c h = (tt, h.unmarked)
serve_commands-IsUnaware etag (w ∷ ws) d tagged c h =
    let now = dispatch-IsUnaware etag w d tagged c.0 h in
    let later = serve_commands-IsUnaware etag ws (dispatch (check w) d).1 tagged c.1 now.1 in
    ((now.0, later.0), later.1)

-- If a check of a device that is not marked as revoked gets a list, with an entity tag, while the
-- certificate file cannot be read, it answers with an error; and as long as the server answers 304 to
-- that entity tag, no later check reports that the own SVID is listed, and the device is not marked,
-- whatever that list had.
pub handle_check-overlooks :
    (etag : String) (w : CheckWorld) (d : Device) (ws : List CheckWorld)
    → (etag == "") ≡ false
    → Unread w d etag
    → d.revoked ≡ false
    → All (IsCurrent etag) ws
    → let first = handle_check w d in
      let out = serve_commands (map check ws) first.1 in
      (first.0 ≡ none) × All (λ r. overlooks r ≡ true) out.0 × (out.1.revoked ≡ false)
handle_check-overlooks etag w d ws tagged u free current =
    let first = handle_check-IsUnaware etag w d u free in
    let later = serve_commands-IsUnaware etag ws (handle_check w d).1 tagged current first.1 in
    (first.0, later.0, later.1)
