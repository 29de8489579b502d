-- ===== src/Agent/Propagation.antt =====
-- mis/transport/http/revocations.go with device-agent/identitymanager/checkrevocations.go: a revocation
-- on its way from the table of the server to the device
use specification_enhancemen.Prelude.{
  ℕ, String, ◌==◌, Bool, true, false, ◌&&◌, not, eqb, any, select, Option, none, some, List, [],
  ◌∷◌, ◌≡◌, refl, ap, ◌∙◌, arith, if◌then◌else◌, map, any-order_by, Bool-cases, inl, inr,
}
use specification_enhancemen.Instant.{Instant, text_lt}
use specification_enhancemen.Store.{RevocationEntry, Db}
use specification_enhancemen.Store.RevokedSvids.{list_revocations, listed_before}
use specification_enhancemen.Transport.Conditional.{
  HttpFormats, weak_etag, matches_etag, Validators, Served, problem, unmodified, body_sent,
  last_modified_header,
}
use specification_enhancemen.Transport.Revocations.{
  RevocationListDto, list_dto, is_list_unmodified, answer_list, handle_revocations,
}
use specification_enhancemen.Agent.{AgentState, Device, Leaf}
use specification_enhancemen.Agent.Revocations.{CheckWorld, HttpAnswer, handle_check}
use specification_enhancemen.Agent.Commands.{Command, serve_commands, run_processes}
use specification_enhancemen.Agent.Halted.{StaysHalted, IsSilent}
use specification_enhancemen.Agent.Detection.{answer_to, Lists, handle_check-IsSilent}

abbrev fingerprints_of : RevocationListDto → List String
fingerprints_of dto = map (λ e. e.cert_fingerprint_sha256) dto.revoked_svids

-- The response as the client reads it; `unmarshal` is json.Unmarshal of a list.
unfoldable pub read_response : (String → Option RevocationListDto) → Served → HttpAnswer
read_response unmarshal (problem p) = record {
  status = p.status;
  etag = "";
  last_modified = "";
  fingerprints = none;
}
read_response unmarshal (unmodified e l) = record {
  status = 304;
  etag = e;
  last_modified = l;
  fingerprints = none;
}
read_response unmarshal (body_sent e l _ body) = record {
  status = 200;
  etag = e;
  last_modified = l;
  fingerprints = elim (unmarshal body) [ none ↦ none | some dto ↦ some (fingerprints_of dto) ];
}

-- The device has no validator, or an entity tag that is not that of this body.
unfoldable pub holds_older : HttpFormats → String → AgentState → Bool
holds_older f body s =
    if s.revocations_etag == ""
    then s.revocations_last_modified == ""
    else not (matches_etag s.revocations_etag (weak_etag f body))

-- The headers that Fetch sets
abbrev pub validators_of : AgentState → Validators
validators_of s = record {
  if_none_match = s.revocations_etag;
  if_modified_since = if s.revocations_etag == "" then s.revocations_last_modified else "";
}

is_list_unmodified-older :
    (f : HttpFormats) (s : AgentState) (last_updated : Instant) (body : String)
    → holds_older f body s ≡ true
    → is_list_unmodified f (validators_of s) last_updated (weak_etag f body) ≡ false
unfolding is_list_unmodified holds_older
is_list_unmodified-older f s last_updated body older =
    elim (Bool-cases (s.revocations_etag == "")) [
      | inl e ↦
          let bare : (s.revocations_last_modified == "") ≡ true = ground (arith, older, e) in
          rw (e, is_list_unmodified) (rw bare refl)
      | inr e ↦
          let apart : matches_etag s.revocations_etag (weak_etag f body) ≡ false =
            ground (arith, older, e) in
          rw (e, is_list_unmodified) apart
    ]

answer_list-sent :
    (f : HttpFormats) (s : AgentState) (last_updated : Instant) (body : String)
    → holds_older f body s ≡ true
    → answer_list f (validators_of s) last_updated body
      ≡ body_sent (weak_etag f body) (last_modified_header f last_updated) "" body
unfolding answer_list
answer_list-sent f s last_updated body older =
    rw (is_list_unmodified-older f s last_updated body older, answer_list) refl

any-fingerprints :
    (f : HttpFormats) (fp : String) (es : List RevocationEntry) (t : Instant)
    → any (λ x. x == fp) (fingerprints_of (list_dto f (es, t)))
      ≡ any (λ e. e.fingerprint_hex == fp) es
unfolding list_dto
any-fingerprints f fp [] t = refl
any-fingerprints f fp (e ∷ es) t = ground (arith, any-fingerprints f fp es t)

any-select :
    {A : Type 0} (p q : A → Bool) (xs : List A) → any p (select q xs) ≡ any (λ x. p x && q x) xs
any-select p q [] = refl
any-select p q (x ∷ xs) = ground (arith, any-select p q xs)

any-listed :
    (f : HttpFormats) (fp : String) (now : Instant) (db : Db)
    → any (λ x. x == fp) (fingerprints_of (list_dto f (list_revocations now db)))
      ≡ any (λ e. (e.fingerprint_hex == fp) && text_lt now e.not_after) db.revoked_svids
unfolding list_revocations
any-listed f fp now db =
    any-fingerprints f fp _ _
    ∙ any-order_by (λ e. e.fingerprint_hex == fp) listed_before _
    ∙ any-select (λ e. e.fingerprint_hex == fp) (λ e. text_lt now e.not_after) db.revoked_svids

-- What the check of a device has to do with the server: it asks this server, whose list in JSON is read
-- back as it was written.
pub record Asks (f : HttpFormats) (marshal : RevocationListDto → Option String)
    (unmarshal : String → Option RevocationListDto) (db : Db) (w : CheckWorld) : Type 0 where
  pub is_ready : w.client_ready ≡ true
  pub serves :
      (etag since : String)
      → w.serve etag since
        ≡ some (
            read_response unmarshal (
              handle_revocations f marshal w.now
                (record { if_none_match = etag; if_modified_since = since })
                db))
  pub body : String
  pub writes : marshal (list_dto f (list_revocations w.now db)) ≡ some body
  pub reads : unmarshal body ≡ some (list_dto f (list_revocations w.now db))

Asks-answered :
    (f : HttpFormats) (marshal : RevocationListDto → Option String)
    (unmarshal : String → Option RevocationListDto) (db : Db) (w : CheckWorld) (d : Device)
    → (a : Asks f marshal unmarshal db w) → holds_older f a.body d.state ≡ true
    → answer_to w d
      ≡ some (record {
        status = 200;
        etag = weak_etag f a.body;
        last_modified = last_modified_header f (list_revocations w.now db).1;
        fingerprints = some (fingerprints_of (list_dto f (list_revocations w.now db)));
      })
unfolding read_response handle_revocations
Asks-answered f marshal unmarshal db w d a older =
    let t = (list_revocations w.now db).1 in
    let v = validators_of d.state in
    let sent : handle_revocations f marshal w.now v db
        ≡ body_sent (weak_etag f a.body) (last_modified_header f t) "" a.body =
      rw (a.writes, handle_revocations) (answer_list-sent f d.state t a.body older) in
    a.serves v.if_none_match v.if_modified_since
    ∙ ap (λ r. some (read_response unmarshal r)) sent
    ∙ rw a.reads refl

-- If the revocation table has a row with the fingerprint of the device's certificate that is not past
-- its time, then a check against this server, by a device that has no validator or an entity tag other
-- than that of the list, finds it and, with the state saved, halts the device: no command of this or a
-- later process gets a new SVID or a JWT SVID.
pub handle_check-handle_revocations :
    (f : HttpFormats) (marshal : RevocationListDto → Option String)
    (unmarshal : String → Option RevocationListDto) (db : Db) (w : CheckWorld) (d : Device)
    (cs : List Command) (runs : List (ℕ × List Command)) (raw : String) (leaf : Leaf)
    → (a : Asks f marshal unmarshal db w) → holds_older f a.body d.state ≡ true
    → w.read_cert d.cert_file ≡ some raw
    → w.parse_leaf raw ≡ some leaf
    → any
        (λ e. (e.fingerprint_hex == leaf.fingerprint_hex) && text_lt w.now e.not_after)
        db.revoked_svids
      ≡ true
    → w.saves ≡ true
    → eqb d.state.revoked_at 0 ≡ true
    → eqb w.now 0 ≡ false
    → let out = handle_check w d in
      let rest = serve_commands cs out.1 in
      (out.0 ≡ some true)
      × StaysHalted d out.1
      × IsSilent rest d
      × IsSilent (run_processes runs rest.1) d
handle_check-handle_revocations f marshal unmarshal db w d cs runs raw leaf a older read parsed row
      saves fresh after =
    let listed : Lists w d = record {
      answer = _;
      listed = fingerprints_of (list_dto f (list_revocations w.now db));
      raw = raw;
      leaf = leaf;
      is_ready = a.is_ready;
      is_answered = Asks-answered f marshal unmarshal db w d a older;
      is_ok = refl;
      is_list = refl;
      is_read = read;
      is_parsed = parsed;
      is_listed = any-listed f leaf.fingerprint_hex w.now db ∙ row;
    } in
    handle_check-IsSilent w d cs runs listed saves fresh after
