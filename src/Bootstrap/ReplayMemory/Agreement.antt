-- ===== src/Bootstrap/ReplayMemory/Agreement.antt =====
-- MemoryStore of factorycertjwt/replay/store.go beside the SQL store of store/jwt_replay.go.
use specification_enhancemen.Prelude.{
  ◌≤◌, String, ◌==◌, Bool, true, false, Option, none, some, List, [], ◌∷◌, ◌++◌, Result, ok, err,
  ◌≡◌, refl, arith, if◌then◌else◌, ltb, any, find, modify, Option-cases, Bool-cases, inl, inr,
  eq_iff, ◌∙◌, sym,
}
use specification_enhancemen.Instant.{Instant}
use specification_enhancemen.Errors.{ReplayErr, replayed}
use specification_enhancemen.Store.{JwtReplayRow, Db}
use specification_enhancemen.Store.JwtReplay.{has_jti, remember_jti, witness}
use specification_enhancemen.Bootstrap.ReplayMemory.{Seen, set_seen, witness_memory, sweep}

-- What the clients and the background sweeper do, each at an instant
pub data Action : Type 0 where
  asks : (now : Instant) (jti : String) (expires_at : Instant) → Action
  sweeps : (now : Instant) → Action

abbrev pub time_of : Action → Instant
time_of (asks now jti expires_at) = now
time_of (sweeps now) = now

-- The clock does not go back.
abbrev pub IsOrdered : Instant → List Action → Type 0
IsOrdered start [] = Unit {0}
IsOrdered start (a ∷ acts) = (start ≤ time_of a) × IsOrdered (time_of a) acts

-- The answers of the in-memory store to the requests
unfoldable pub memory_answers : List Action → Seen → List (Result ReplayErr (Unit {0}))
memory_answers [] seen = []
memory_answers (asks now jti expires_at ∷ acts) seen =
    (witness_memory now jti expires_at seen).0
    ∷ memory_answers acts (witness_memory now jti expires_at seen).1
memory_answers (sweeps now ∷ acts) seen = memory_answers acts (sweep now seen)

-- The answers of the SQL store, which has no sweeper
unfoldable pub sql_answers : List Action → Db → List (Result ReplayErr (Unit {0}))
sql_answers [] db = []
sql_answers (asks now jti expires_at ∷ acts) db =
    (witness now jti expires_at db).0 ∷ sql_answers acts (witness now jti expires_at db).1
sql_answers (sweeps now ∷ acts) db = sql_answers acts db

-- Whether a jti that was seen until then is refused
abbrev pub refuses : Instant → Option Instant → Bool
refuses t none = false
refuses t (some e) = ltb t e

abbrev pub kept_rows : Option JwtReplayRow → Option Instant
kept_rows none = none
kept_rows (some r) = some r.expires_at

abbrev pub kept_until : String → Db → Option Instant
kept_until j db = kept_rows (find (has_jti j) db.jwt_replay)

-- The stores refuse the same jtis from this instant on.
abbrev pub Agrees : Instant → Seen → Db → Type 0
Agrees start seen db =
    (j : String) (t : Instant) → start ≤ t → refuses t (seen j) ≡ refuses t (kept_until j db)

kept-modify_other :
    (jti j : String) (e : Instant) (rows : List JwtReplayRow)
    → (jti == j) ≡ false
    → kept_rows (find (has_jti j) (modify (has_jti jti) (λ r. record r { expires_at = e }) rows))
      ≡ (if jti == j then some e else kept_rows (find (has_jti j) rows))
kept-modify_other jti j e [] h = rw h refl
kept-modify_other jti j e (r ∷ rows) h =
    ground (arith, eq_iff r.jti jti, eq_iff r.jti j, eq_iff jti j, kept-modify_other jti j e rows h)

kept-modify :
    (jti j : String) (e : Instant) (rows : List JwtReplayRow)
    → any (has_jti jti) rows ≡ true
    → kept_rows (find (has_jti j) (modify (has_jti jti) (λ r. record r { expires_at = e }) rows))
      ≡ (if jti == j then some e else kept_rows (find (has_jti j) rows))
kept-modify jti j e [] h = absurd (ground arith)
kept-modify jti j e (r ∷ rows) h = elim (Bool-cases (jti == j)) [
  | inr other ↦ kept-modify_other jti j e (r ∷ rows) other
  | inl same ↦ elim (Bool-cases (has_jti jti r)) [
    | inl own ↦ ground (arith, eq_iff r.jti jti, eq_iff r.jti j, eq_iff jti j)
    | inr apart ↦
        let later = kept-modify jti j e rows (ground arith) in
        ground (arith, eq_iff r.jti jti, eq_iff r.jti j, eq_iff jti j, later)
  ]
]

kept-append :
    (jti j : String) (e : Instant) (rows : List JwtReplayRow)
    → any (has_jti jti) rows ≡ false
    → kept_rows (find (has_jti j) (rows ++ record { jti = jti; expires_at = e } ∷ []))
      ≡ (if jti == j then some e else kept_rows (find (has_jti j) rows))
kept-append jti j e [] h = ground arith
kept-append jti j e (r ∷ rows) h =
    ground (arith, eq_iff r.jti jti, eq_iff r.jti j, eq_iff jti j, kept-append jti j e rows)

kept_until-remember :
    (jti j : String) (e : Instant) (db : Db)
    → kept_until j (record db { jwt_replay = remember_jti jti e db.jwt_replay })
      ≡ (if jti == j then some e else kept_until j db)
unfolding remember_jti
kept_until-remember jti j e db = elim (Bool-cases (any (has_jti jti) db.jwt_replay)) [
  | inl there ↦ rw there (kept-modify jti j e db.jwt_replay there)
  | inr missing ↦ rw missing (kept-append jti j e db.jwt_replay missing)
]

witness_memory-refuses :
    (now : Instant) (jti : String) (e : Instant) (seen : Seen)
    → witness_memory now jti e seen
      ≡ (if refuses now (seen jti) then (err replayed, seen) else (ok tt, set_seen jti e seen))
unfolding witness_memory
witness_memory-refuses now jti e seen = elim (Option-cases (seen jti)) [
  | inl h ↦ rw (h, witness_memory) refl
  | inr (prev, h) ↦ rw (h, witness_memory) refl
]

witness-refuses :
    (now : Instant) (jti : String) (e : Instant) (db : Db)
    → witness now jti e db ≡ (
        if refuses now (kept_until jti db)
        then (err replayed, db)
        else (ok tt, record db { jwt_replay = remember_jti jti e db.jwt_replay }))
unfolding witness
witness-refuses now jti e db = elim (Option-cases (find (has_jti jti) db.jwt_replay)) [
  | inl h ↦ rw (h, witness) refl
  | inr (r, h) ↦ rw (h, witness) refl
]

refuses-sweep :
    (now t : Instant) (seen : Seen) (j : String)
    → now ≤ t
    → refuses t (sweep now seen j) ≡ refuses t (seen j)
unfolding sweep
refuses-sweep now t seen j le = elim (Option-cases (seen j)) [
  | inl h ↦ rw (h, sweep) refl
  | inr (exp, h) ↦ elim (Bool-cases (ltb now exp)) [
    | inl live ↦ rw (h, sweep) (rw live refl)
    | inr gone ↦ rw (h, sweep) (rw gone (ground arith))
  ]
]

Agrees-sweep :
    (start now : Instant) (seen : Seen) (db : Db)
    → start ≤ now
    → Agrees start seen db
    → Agrees now (sweep now seen) db
Agrees-sweep start now seen db le h j t lt = refuses-sweep now t seen j lt ∙ h j t (omega arith)

Agrees-witness :
    (start now : Instant) (jti : String) (e : Instant) (seen : Seen) (db : Db)
    → start ≤ now
    → Agrees start seen db
    → ((witness_memory now jti e seen).0 ≡ (witness now jti e db).0)
      × Agrees now (witness_memory now jti e seen).1 (witness now jti e db).1
Agrees-witness start now jti e seen db le h =
    let same = h jti now le in
    let memory = witness_memory-refuses now jti e seen in
    let sql = witness-refuses now jti e db in
    elim (Bool-cases (refuses now (seen jti))) [
      | inl b ↦
          let left : witness_memory now jti e seen ≡ (err replayed, seen) = memory ∙ rw b refl in
          let right : witness now jti e db ≡ (err replayed, db) = sql ∙ rw (sym same ∙ b) refl in
          rw (left, right) (refl, λ j t lt. h j t (omega arith))
      | inr b ↦
          let left : witness_memory now jti e seen ≡ (ok tt, set_seen jti e seen) =
            memory ∙ rw b refl in
          let right : witness now jti e db
              ≡ (ok tt, record db { jwt_replay = remember_jti jti e db.jwt_replay }) =
            sql ∙ rw (sym same ∙ b) refl in
          rw (left, right)
            (
              refl,
              λ j t lt.
                  let kept = kept_until-remember jti j e db in
                  elim (Bool-cases (jti == j)) [
                    | inl own ↦ rw (kept, own) refl
                    | inr other ↦ rw (kept, other) (h j t (omega arith))
                  ],
            )
    ]

-- Where the clock does not go back and the stores agree at the start on what they refuse, they give
-- the same answers to every sequence of requests, whenever the in-memory store is swept.
pub memory_answers-sql_answers :
    (start : Instant) (acts : List Action) (seen : Seen) (db : Db)
    → IsOrdered start acts
    → Agrees start seen db
    → memory_answers acts seen ≡ sql_answers acts db
unfolding memory_answers sql_answers
memory_answers-sql_answers start [] seen db o h = refl
memory_answers-sql_answers start (asks now jti e ∷ acts) seen db (le, o) h =
    let (same, next) = Agrees-witness start now jti e seen db le h in
    rw (same, memory_answers-sql_answers now acts _ _ o next) refl
memory_answers-sql_answers start (sweeps now ∷ acts) seen db (le, o) h =
    memory_answers-sql_answers now acts (sweep now seen) db o (Agrees-sweep start now seen db le h)
