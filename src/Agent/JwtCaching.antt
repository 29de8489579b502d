-- ===== src/Agent/JwtCaching.antt =====
-- completed/miaf-poc/pkg/device-agent: jwtsvid/cache/cache.go and identitymanager/exchangejwt.go
use Prim.Native.String.{compare}
use text.Mathlib.Text.{is_lt}
use specification_enhancemen.Prelude.{
  ℕ, ◌+◌, String, ◌<>◌, ◌==◌, Bool, not, Option, none, some, List, [], ◌∷◌, ◌++◌, if◌then◌else◌,
  ltb, any, find, modify, select, order_by,
}
use specification_enhancemen.Instant.{Instant}
use specification_enhancemen.Agent.{JwtEntry, JwtCache, Device, is_success}

-- strings.Join
abbrev pub join : String → List String → String
join sep [] = ""
join sep (x ∷ []) = x
join sep (x ∷ y ∷ rest) = x <> sep <> join sep (y ∷ rest)

-- key; the audiences sorted by their bytes
unfoldable pub cache_key : List String → String
cache_key audiences = join "\0" (order_by (λ a b. not (is_lt (compare b a))) audiences)

abbrev pub has_key : String → JwtEntry → Bool
has_key k e = e.key == k

-- e.ExpiresAt.Sub(now) < c.threshold
abbrev pub is_near_expiry : ℕ → Instant → JwtEntry → Bool
is_near_expiry threshold now e = ltb e.expires_at (now + threshold)

-- Put
unfoldable pub put : List String → String → Instant → JwtCache → JwtCache
unfolding cache_key
put audiences token expires_at c =
    let k = cache_key audiences in
    let new : JwtEntry = record { key = k; token = token; expires_at = expires_at } in
    record c {
      entries =
          if any (has_key k) c.entries
          then modify (has_key k) (λ _. new) c.entries
          else c.entries ++ new ∷ [];
    }

-- Get with what the map has
unfoldable pub fresh_entry : ℕ → Instant → Option JwtEntry → Option JwtEntry
fresh_entry threshold now none = none
fresh_entry threshold now (some e) = if is_near_expiry threshold now e then none else some e

-- Get
unfoldable pub get : List String → Instant → JwtCache → Option JwtEntry
unfolding cache_key fresh_entry
get audiences now c = fresh_entry c.threshold now (find (has_key (cache_key audiences)) c.entries)

-- EvictExpired
unfoldable pub evict_expired : Instant → JwtCache → JwtCache
evict_expired now c = record c {
  entries = select (λ e. not (is_near_expiry c.threshold now e)) c.entries;
}

-- What jwtsvid.Exchange returns; `expires_at` as time.Parse reads it, which is 0 where it cannot.
pub data ExchangeAnswer : Type 0 where
  unreached : ExchangeAnswer
  answered : (status : ℕ) → (token : String) → (expires_at : Instant) → ExchangeAnswer

-- What is outside of handleExchangeJWT in one command. `client_ready` says whether the mTLS client and
-- the signer could be made; `send` is jwtsvid.Exchange for the SPIFFE ID, the audiences and the TTL.
pub record ExchangeWorld : Type 0 where
  pub now : Instant
  pub client_ready : Bool
  pub send : String → List String → ℕ → ExchangeAnswer

pub data ExchangeReply : Type 0 where
  token_issued : (status : ℕ) → (token : String) → (expires_at : Instant) → ExchangeReply
  token_cached : (token : String) → (expires_at : Instant) → ExchangeReply
  refused : (status : ℕ) → ExchangeReply
  failed is_revoked : ExchangeReply

-- JWTCache.Get, where there is a cache
unfoldable pub look_up : Option JwtCache → List String → Instant → Option JwtEntry
unfolding get
look_up none audiences now = none
look_up (some c) audiences now = get audiences now c

-- JWTCache.Put, where there is a cache
unfoldable pub keep_token : List String → String → Instant → Option JwtCache → Option JwtCache
unfolding put
keep_token audiences token expires_at none = none
keep_token audiences token expires_at (some c) = some (put audiences token expires_at c)

-- handleExchangeJWT from the answer on
unfoldable pub take_token : List String → ExchangeAnswer → Device → ExchangeReply × Device
unfolding keep_token
take_token audiences unreached d = (failed, d)
take_token audiences (answered status token expires_at) d =
    if is_success status
    then (
      token_issued status token expires_at,
      record d { cache = keep_token audiences token expires_at d.cache },
    )
    else (refused status, d)

-- handleExchangeJWT with what the cache answers
unfoldable pub exchange_with :
    ExchangeWorld → List String → ℕ → Option JwtEntry → Device → ExchangeReply × Device
unfolding take_token
exchange_with w audiences ttl (some e) d = (token_cached e.token e.expires_at, d)
exchange_with w audiences ttl none d =
    if w.client_ready
    then take_token audiences (w.send d.state.spiffe_id audiences ttl) d
    else (failed, d)

-- handleExchangeJWT
unfoldable pub handle_exchange_jwt :
    ExchangeWorld → List String → ℕ → Device → ExchangeReply × Device
unfolding look_up exchange_with
handle_exchange_jwt w audiences ttl d =
    if d.revoked
    then (is_revoked, d)
    else exchange_with w audiences ttl (look_up d.cache audiences w.now) d
