-- ===== src/Agent/Reuse.antt =====
-- jwtsvid/cache/cache.go and identitymanager/exchangejwt.go: what the cache answers
use specification_enhancemen.Prelude.{
  ℕ, ◌+◌, String, true, false, none, some, List, [], ◌∷◌, ◌≡◌, refl, ap, arith, ◌∙◌, if◌then◌else◌,
  ltb, find, modify, find-append, find-none, any-find, str_eq_refl, Option-cases, Bool-cases, inl,
  inr,
}
use specification_enhancemen.Instant.{Instant}
use specification_enhancemen.Agent.{JwtEntry, JwtCache, Device, is_success}
use specification_enhancemen.Agent.JwtCaching.{
  cache_key, has_key, put, get, fresh_entry, take_token, ExchangeWorld, answered, ExchangeReply,
  token_issued, token_cached, look_up, keep_token, exchange_with, handle_exchange_jwt,
}

abbrev entry_of : List String → String → Instant → JwtEntry
entry_of audiences token expires_at = record {
  key = cache_key audiences;
  token = token;
  expires_at = expires_at;
}

find-modify_entry :
    (k : String) (new : JwtEntry) (e : JwtEntry) (es : List JwtEntry)
    → has_key k new ≡ true
    → find (has_key k) es ≡ some e
    → find (has_key k) (modify (has_key k) (λ _. new) es) ≡ some new
find-modify_entry k new e [] own h = absurd (ground arith)
find-modify_entry k new e (x ∷ es) own h = elim (Bool-cases (has_key k x)) [
  | inl hit ↦ ground (arith, own)
  | inr miss ↦ ground (arith, find-modify_entry k new e es own)
]

find-put :
    (audiences : List String) (token : String) (expires_at : Instant) (c : JwtCache)
    → find (has_key (cache_key audiences)) (put audiences token expires_at c).entries
      ≡ some (entry_of audiences token expires_at)
unfolding put
find-put audiences token expires_at c =
    let k = cache_key audiences in
    let new = entry_of audiences token expires_at in
    elim (Option-cases (find (has_key k) c.entries)) [
      | inl miss ↦
          let no_entry = find-none (has_key k) c.entries miss in
          rw no_entry
            (find-append (has_key k) c.entries (new ∷ []) no_entry ∙ rw (str_eq_refl k) refl)
      | inr (e, hit) ↦
          let there = any-find (has_key k) c.entries e hit in
          rw there (find-modify_entry k new e c.entries (str_eq_refl k) hit)
    ]

-- Get after Put for the same audiences
get-put :
    (audiences : List String) (token : String) (expires_at now : Instant) (c : JwtCache)
    → get audiences now (put audiences token expires_at c)
      ≡ fresh_entry c.threshold now (some (entry_of audiences token expires_at))
unfolding get put
get-put audiences token expires_at now c =
    ap (fresh_entry c.threshold now) (find-put audiences token expires_at c)

unrevoked :
    (w : ExchangeWorld) (audiences : List String) (ttl : ℕ) (d : Device)
    → d.revoked ≡ false
    → handle_exchange_jwt w audiences ttl d
      ≡ exchange_with w audiences ttl (look_up d.cache audiences w.now) d
unfolding handle_exchange_jwt
unrevoked w audiences ttl d free =
    ap
      (λ b.
        if b
        then (ExchangeReply.is_revoked, d)
        else exchange_with w audiences ttl (look_up d.cache audiences w.now) d)
      free

-- handleExchangeJWT with a cache that a token for the same audiences was put in
exchange-put :
    (w : ExchangeWorld) (audiences : List String) (ttl : ℕ) (token : String) (expires_at : Instant)
    (d : Device) (c : JwtCache)
    → d.revoked ≡ false
    → d.cache ≡ some (put audiences token expires_at c)
    → handle_exchange_jwt w audiences ttl d
      ≡ exchange_with w audiences ttl
          (fresh_entry c.threshold w.now (some (entry_of audiences token expires_at)))
          d
unfolding handle_exchange_jwt look_up
exchange-put w audiences ttl token expires_at d c free held =
    let seen =
      ap (λ o. look_up o audiences w.now) held ∙ get-put audiences token expires_at w.now c in
    unrevoked w audiences ttl d free ∙ ap (λ o. exchange_with w audiences ttl o d) seen

exchange-issued :
    (w : ExchangeWorld) (audiences : List String) (ttl status : ℕ) (token : String)
    (expires_at : Instant) (d : Device) (c : JwtCache)
    → d.revoked ≡ false
    → d.cache ≡ some c
    → get audiences w.now c ≡ none
    → w.client_ready ≡ true
    → w.send d.state.spiffe_id audiences ttl ≡ answered status token expires_at
    → is_success status ≡ true
    → handle_exchange_jwt w audiences ttl d ≡ (
      token_issued status token expires_at,
      record d { cache = some (put audiences token expires_at c) },
    )
unfolding handle_exchange_jwt look_up exchange_with take_token keep_token
exchange-issued w audiences ttl status token expires_at d c free held miss ready sent good =
    let seen = ap (λ o. look_up o audiences w.now) held ∙ miss in
    let kept = ap (keep_token audiences token expires_at) held in
    unrevoked w audiences ttl d free
    ∙ ap (λ o. exchange_with w audiences ttl o d) seen
    ∙ rw (ready, exchange_with)
        (ap (λ a. take_token audiences a d) sent
          ∙ rw (good, take_token)
              (ap (λ k. (token_issued status token expires_at, record d { cache = k })) kept))

-- A JWT SVID that an exchange got is handed out again for the same audiences, without a request and
-- whatever TTL is asked for, as long as its remaining lifetime is at least the threshold of the cache;
-- from then on there is a new exchange.
pub handle_exchange_jwt-reuses :
    (w w' : ExchangeWorld) (audiences : List String) (ttl ttl' status : ℕ) (token : String)
    (expires_at : Instant) (d : Device) (c : JwtCache)
    → d.revoked ≡ false
    → d.cache ≡ some c
    → get audiences w.now c ≡ none
    → w.client_ready ≡ true
    → w.send d.state.spiffe_id audiences ttl ≡ answered status token expires_at
    → is_success status ≡ true
    → let first = handle_exchange_jwt w audiences ttl d in
      let second = handle_exchange_jwt w' audiences ttl' first.1 in
      (first.0 ≡ token_issued status token expires_at)
      × (second ≡ (
          if ltb expires_at (w'.now + c.threshold)
          then exchange_with w' audiences ttl' none first.1
          else (token_cached token expires_at, first.1)))
unfolding fresh_entry exchange_with
handle_exchange_jwt-reuses w w' audiences ttl ttl' status token expires_at d c free held miss ready
      sent good =
    let d₁ = record d { cache = some (put audiences token expires_at c) } in
    let issued =
      exchange-issued w audiences ttl status token expires_at d c free held miss ready sent good in
    let again = exchange-put w' audiences ttl' token expires_at d₁ c free refl in
    rw issued (
      refl,
      again ∙ elim (Bool-cases (ltb expires_at (w'.now + c.threshold))) [
        | inl e ↦ rw e refl
        | inr e ↦ rw e refl
      ],
    )
