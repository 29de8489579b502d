-- ===== src/Agent/Renewing.antt =====
-- completed/miaf-poc/pkg/device-agent/identitymanager/renew.go
use specification_enhancemen.Prelude.{ℕ, String, Bool, not, Option, none, some, if◌then◌else◌}
use specification_enhancemen.Instant.{Instant}
use specification_enhancemen.Agent.{Device, Leaf, persist, is_success}

-- How a renewal authenticates, once the mode has been read: the client is ready, with the token of the
-- bearer mode; or it fails, before or in the exchange for that token.
pub data Preparation : Type 0 where
  ready : (bearer_token : String) → Preparation
  unprepared : Preparation
  exchange_refused : (status : ℕ) → Preparation

-- What renew.Renew returns
pub data RenewAnswer : Type 0 where
  unreached : RenewAnswer
  answered : (status : ℕ) → (chain_pem : String) → RenewAnswer

-- What is outside of handleRenew in one command. `send` is renew.Renew with a key and a bearer token;
-- `marshal_key` is x509.MarshalPKCS8PrivateKey in PEM.
pub record RenewWorld : Type 0 where
  pub now : Instant
  pub new_key : Option String
  pub prepare : Preparation
  pub send : String → String → RenewAnswer
  pub parse_leaf : String → Option Leaf
  pub marshal_key : String → Option String
  pub writes_cert : Bool
  pub writes_key : Bool
  pub saves : Bool

pub data RenewReply : Type 0 where
  renewed : (status : ℕ) → (serial : String) → (expiry : Instant) → RenewReply
  refused : (status : ℕ) → RenewReply
  failed is_revoked : RenewReply

-- handleRenew from the writing of the files on
unfoldable pub install : RenewWorld → ℕ → String → String → Leaf → Device → RenewReply × Device
unfolding persist
install w status chain key_pem leaf d =
    let with_cert = record d { cert_file = chain } in
    let renewed_state = record d.state {
      serial = leaf.serial_decimal;
      expires_at = leaf.not_after;
      last_renewal_at = w.now;
    } in
    let done = record with_cert { key_file = key_pem; state = renewed_state } in
    if not w.writes_cert
    then (failed, d)
    else if not w.writes_key
    then (failed, with_cert)
    else if not w.saves
    then (failed, done)
    else (renewed status leaf.serial_decimal leaf.not_after, persist w.saves done)

-- handleRenew with a client
unfoldable pub renew_with : RenewWorld → String → String → Device → RenewReply × Device
unfolding install
renew_with w key token d = elim (w.send key token) [
  | unreached ↦ (failed, d)
  | answered status chain ↦
      if not (is_success status) then (refused status, d) else elim (w.parse_leaf chain) [
        | none ↦ (failed, d)
        | some leaf ↦ elim (w.marshal_key key) [
          | none ↦ (failed, d)
          | some key_pem ↦ install w status chain key_pem leaf d
        ]
      ]
]

-- handleRenew
unfoldable pub handle_renew : RenewWorld → Device → RenewReply × Device
unfolding renew_with
handle_renew w d = if d.revoked then (is_revoked, d) else elim w.new_key [
  | none ↦ (failed, d)
  | some key ↦ elim w.prepare [
    | unprepared ↦ (failed, d)
    | exchange_refused status ↦ (refused status, d)
    | ready token ↦ renew_with w key token d
  ]
]
