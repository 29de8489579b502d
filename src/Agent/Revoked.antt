-- ===== src/Agent/Revoked.antt =====
-- mis/identity/service.go with device-agent/identitymanager: from RevokeSPIFFEID to the device
use specification_enhancemen.Prelude.{
  ℕ, String, true, false, eqb, Option, some, List, ◌∷◌, ◌++◌, ◌≡◌, ok, All,
}
use specification_enhancemen.Instant.{Instant, text_lt}
use specification_enhancemen.Store.{Ldi, IssuedSvid, Db}
use specification_enhancemen.Store.Identities.{get_ldi_by_spiffe_id}
use specification_enhancemen.Store.IssuedSvids.{active_by_spiffe_id}
use specification_enhancemen.Identity.Revocation.{revoke_spiffe_id}
use specification_enhancemen.Identity.Revocation.Listed.{IsOf, IsSame, revoke_spiffe_id-fingerprint}
use specification_enhancemen.Transport.Conditional.{HttpFormats}
use specification_enhancemen.Transport.Revocations.{RevocationListDto}
use specification_enhancemen.Agent.{Device, Leaf}
use specification_enhancemen.Agent.Revocations.{CheckWorld, handle_check}
use specification_enhancemen.Agent.Commands.{Command, serve_commands, run_processes}
use specification_enhancemen.Agent.Halted.{StaysHalted, IsSilent}
use specification_enhancemen.Agent.Propagation.{holds_older, Asks, handle_check-handle_revocations}

-- RevokeSPIFFEID of a known SPIFFE ID reaches each device with one of its outstanding SVIDs, as long as
-- that has not expired and where a serial is that of one certificate: a check against the server with
-- the tables after it, by a device that has no validator or an entity tag other than that of the list,
-- finds its certificate and, with the state saved, halts the device. Its certificate and key files stay
-- as they are, and no command of this or a later process gets a new SVID or a JWT SVID.
pub handle_check-revoke_spiffe_id :
    (now : Instant) (spiffe_id reason : String) (l : Ldi) (db : Db) (p : IssuedSvid)
    (before after : List IssuedSvid) (f : HttpFormats) (marshal : RevocationListDto → Option String)
    (unmarshal : String → Option RevocationListDto) (w : CheckWorld) (d : Device)
    (cs : List Command) (runs : List (ℕ × List Command)) (raw : String) (leaf : Leaf)
    → get_ldi_by_spiffe_id spiffe_id db ≡ ok l
    → active_by_spiffe_id spiffe_id now db ≡ before ++ p ∷ after
    → All (IsSame p) (active_by_spiffe_id spiffe_id now db)
    → All (IsOf p) db.revoked_svids
    → (a : Asks f marshal unmarshal (revoke_spiffe_id now spiffe_id reason db).1 w)
    → holds_older f a.body d.state ≡ true
    → w.read_cert d.cert_file ≡ some raw
    → w.parse_leaf raw ≡ some leaf
    → leaf.fingerprint_hex ≡ p.fingerprint_hex
    → text_lt w.now p.not_after ≡ true
    → w.saves ≡ true
    → eqb d.state.revoked_at 0 ≡ true
    → eqb w.now 0 ≡ false
    → let out = handle_check w d in
      let rest = serve_commands cs out.1 in
      (out.0 ≡ some true)
      × StaysHalted d out.1
      × IsSilent rest d
      × IsSilent (run_processes runs rest.1) d
handle_check-revoke_spiffe_id now spiffe_id reason l db p before after f marshal unmarshal w d cs
      runs raw leaf known split same rows a older read parsed held live saves fresh later =
    let row =
      revoke_spiffe_id-fingerprint now w.now spiffe_id reason l db p before after known split same
        rows live in
    handle_check-handle_revocations f marshal unmarshal (revoke_spiffe_id now spiffe_id reason db).1
      w d cs runs raw leaf a older read parsed (rw held row) saves fresh later
