-- ===== src/Store/EnrollmentTokens/SingleUse.antt =====
-- Consume of store/enrollment_tokens.go among the other operations of the token store.
use specification_enhancemen.Prelude.{
  ℕ, ◌+◌, String, [], ◌∷◌, ◌⊎◌, Result-cases, Option-cases, ltb, ap, true, none, some, ◌≡◌, refl,
  arith, Result, ok, err, find, find-modify, find-append_some, Bool-cases, inl, inr, str_eq_refl,
  if◌then◌else◌,
}
use mathlib.Core.Path.{subst}
use specification_enhancemen.Instant.{Instant}
use specification_enhancemen.Errors.{TokenErr}
use specification_enhancemen.Store.{EnrollmentToken, TokenStatus, consumed, Outcome, Db}
use specification_enhancemen.Store.EnrollmentTokens.{
  is_consumed, has_secret, is_claimable, claim, create_token, consume, record_outcome,
}

-- The operations of the token store, with any arguments and any result
pub data TokenStep (db : Db) : Db → Type 0 where
  creates :
      (id hash : String) (ttl : ℕ) (now : Instant)
      → TokenStep db (create_token id hash ttl now db).1
  consumes : (hash : String) (now : Instant) → TokenStep db (consume hash now db).1
  records : (o : Outcome) → TokenStep db (record_outcome o db).1

pub data TokenSteps (db : Db) : Db → Type 0 where
  here : TokenSteps db db
  next : {a b : Db} → TokenSteps db a → TokenStep a b → TokenSteps db b

-- The row of this secret is there and consumed.
record IsSpent (hash : String) (db : Db) : Type 0 where
  row : EnrollmentToken
  found : find (has_secret hash) db.enrollment_tokens ≡ some row
  spent : is_consumed row.status ≡ true

IsSpent-claim :
    (hash id : String) (now : Instant) (db db' : Db)
    → db'.enrollment_tokens ≡ claim id now db.enrollment_tokens
    → IsSpent hash db
    → IsSpent hash db'
unfolding claim
IsSpent-claim hash id now db db' e h =
    let moved =
      find-modify (has_secret hash) (is_claimable id) _ (λ t. refl) db.enrollment_tokens h.row
        h.found in
    record {
      row =
          if is_claimable id h.row
          then record h.row { status = consumed; consumed_at = some now }
          else h.row;
      found = rw e moved;
      spent = ground (arith, h.spent);
    }

-- A store with the same tokens, or one token more
IsSpent-create_token :
    (hash id fresh : String) (ttl : ℕ) (now : Instant) (db : Db)
    → IsSpent hash db
    → IsSpent hash (create_token id fresh ttl now db).1
unfolding create_token
IsSpent-create_token hash id fresh ttl now db h =
    let t : EnrollmentToken = record {
      token_id = id;
      secret_hash = fresh;
      status = TokenStatus.active;
      expires_at = now + ttl;
      created_at = now;
      consumed_at = none;
    } in
    let kept = find-append_some (has_secret hash) db.enrollment_tokens (t ∷ []) h.row h.found in
    record { row = h.row; found = ground (arith, h.found, kept); spent = h.spent }

IsSpent-consume :
    (hash other : String) (now : Instant) (db : Db)
    → IsSpent hash db
    → IsSpent hash (consume other now db).1
unfolding consume
IsSpent-consume hash other now db h = elim (Result-cases (consume other now db).0) [
  | inl (id, e) ↦ IsSpent-claim hash id now db _ (ground arith) h
  | inr (x, e) ↦ record { row = h.row; found = ground (arith, h.found); spent = h.spent }
]

IsSpent-record_outcome :
    (hash : String) (o : Outcome) (db : Db) → IsSpent hash db → IsSpent hash (record_outcome o db).1
unfolding record_outcome
IsSpent-record_outcome hash o db h = record {
  row = h.row;
  found = ground (arith, h.found);
  spent = h.spent;
}

IsSpent-TokenStep : {hash : String} {a b : Db} → TokenStep a b → IsSpent hash a → IsSpent hash b
IsSpent-TokenStep {hash} {a} (creates id fresh ttl now) h =
    IsSpent-create_token hash id fresh ttl now a h
IsSpent-TokenStep {hash} {a} (consumes other now) h = IsSpent-consume hash other now a h
IsSpent-TokenStep {hash} {a} (records o) h = IsSpent-record_outcome hash o a h

IsSpent-TokenSteps : {hash : String} {a b : Db} → TokenSteps a b → IsSpent hash a → IsSpent hash b
IsSpent-TokenSteps here h = h
IsSpent-TokenSteps (next before st) h = IsSpent-TokenStep st (IsSpent-TokenSteps before h)

-- A successful claim leaves the secret spent.
consume-IsSpent :
    (hash id : String) (now : Instant) (db : Db)
    → (consume hash now db).0 ≡ ok id
    → IsSpent hash (consume hash now db).1
unfolding consume claim
consume-IsSpent hash id now db e =
    elim (Option-cases (find (has_secret hash) db.enrollment_tokens)) [
      | inl miss ↦ absurd (ground arith)
      | inr (t, hit) ↦
          let moved =
            find-modify (has_secret hash) (is_claimable t.token_id)
              (λ t. record t { status = consumed; consumed_at = some now }) (λ t. refl)
              db.enrollment_tokens t hit in
          record {
            row = record t { status = consumed; consumed_at = some now };
            found = ground (arith, moved, str_eq_refl t.token_id);
            spent = refl;
          }
    ]

-- Once Consume has claimed a token, no later Consume of its secret succeeds, at any time and after
-- any operations of the token store: it answers that the token has expired or was used.
pub consume_once :
    (hash id : String) (now later : Instant) (db db₁ db₂ : Db)
    → consume hash now db ≡ (ok id, db₁)
    → TokenSteps db₁ db₂
    → (consume hash later db₂ ≡ (err TokenErr.expired, db₂))
      ⊎ (consume hash later db₂ ≡ (err TokenErr.already_used, db₂))
unfolding consume
consume_once hash id now later db db₁ db₂ e steps =
    let first : IsSpent hash (consume hash now db).1 =
      consume-IsSpent hash id now db (ap (λ (m : Result TokenErr String × Db). m.0) e) in
    let start : IsSpent hash db₁ =
      subst (λ (m : Result TokenErr String × Db). IsSpent hash m.1) e first in
    let spent = IsSpent-TokenSteps steps start in
    elim (Bool-cases (ltb later spent.row.expires_at)) [
      | inl early ↦ inr (ground (arith, spent.found, spent.spent))
      | inr late ↦ inl (ground (arith, spent.found))
    ]
