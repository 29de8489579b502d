-- ===== src/Store/JwtReplay/Replay.antt =====
-- Witness of store/jwt_replay.go over a sequence of requests.
use specification_enhancemen.Prelude.{
  ◌<◌, ◌≤◌, ltb, String, false, some, List, [], ◌∷◌, ◌≡◌, refl, arith, ok, err, find, All,
  find-modify, find-append, find-append_some, Bool-cases, inl, inr, str_eq_refl, any, any-find,
  Option-cases, find-none, ◌==◌, ◌∙◌, find-some, str_eq→≡,
}
use specification_enhancemen.Instant.{Instant}
use specification_enhancemen.Errors.{replayed}
use specification_enhancemen.Store.{JwtReplayRow, Db}
use specification_enhancemen.Store.JwtReplay.{has_jti, remember_jti, witness}

-- One request: its instant, its jti and the expiry that it asks for
pub record WitnessCall : Type 0 where
  pub now : Instant
  pub jti : String
  pub expires_at : Instant

-- Requests in a row, whatever each of them answers
unfoldable pub witness_all : List WitnessCall → Db → Db
witness_all [] db = db
witness_all (c ∷ cs) db = witness_all cs (witness c.now c.jti c.expires_at db).1

-- The row of the jti is there and lives until this instant.
record IsSeen (jti : String) (until : Instant) (db : Db) : Type 0 where
  row : JwtReplayRow
  found : find (has_jti jti) db.jwt_replay ≡ some row
  lives : row.expires_at ≡ until

remember-IsSeen :
    (jti : String) (until : Instant) (db : Db)
    → IsSeen jti until (record db { jwt_replay = remember_jti jti until db.jwt_replay })
unfolding remember_jti
remember-IsSeen jti until db = elim (Option-cases (find (has_jti jti) db.jwt_replay)) [
  | inl miss ↦
      let no_row = find-none (has_jti jti) db.jwt_replay miss in
      let new : JwtReplayRow = record { jti = jti; expires_at = until } in
      record {
        row = new;
        found =
            rw no_row (
              find-append (has_jti jti) db.jwt_replay (new ∷ []) no_row
              ∙ rw (str_eq_refl jti) refl);
        lives = refl;
      }
  | inr (r, hit) ↦
      let there = any-find (has_jti jti) db.jwt_replay r hit in
      let own = find-some (has_jti jti) db.jwt_replay r hit in
      record {
        row = record r { expires_at = until };
        found = rw there (
            find-modify (has_jti jti) (has_jti jti) _ (λ r. refl) db.jwt_replay r hit
            ∙ rw own refl);
        lives = refl;
      }
]

-- A live row refuses its jti.
IsSeen-refuses :
    (jti : String) (until now expires_at : Instant) (db : Db)
    → IsSeen jti until db
    → now < until
    → witness now jti expires_at db ≡ (err replayed, db)
unfolding witness
IsSeen-refuses jti until now expires_at db h early = ground (arith, h.found, h.lives)

-- Another jti does not touch the row.
find-remember_jti_other :
    (jti other : String) (expires_at : Instant) (rows : List JwtReplayRow) (r : JwtReplayRow)
    → (jti == other) ≡ false
    → find (has_jti jti) rows ≡ some r
    → find (has_jti jti) (remember_jti other expires_at rows) ≡ some r
unfolding remember_jti
find-remember_jti_other jti other expires_at rows r ne hit =
    let own : r.jti ≡ jti = str_eq→≡ r.jti jti (find-some (has_jti jti) rows r hit) in
    let apart : (r.jti == other) ≡ false = rw own ne in
    elim (Bool-cases (any (has_jti other) rows)) [
      | inr e ↦ rw e (find-append_some (has_jti jti) rows _ r hit)
      | inl e ↦
          rw e (find-modify (has_jti jti) (has_jti other) _ (λ r. refl) rows r hit ∙ rw apart refl)
    ]

IsSeen-other :
    (jti other : String) (until now expires_at : Instant) (db : Db)
    → (jti == other) ≡ false
    → IsSeen jti until db
    → IsSeen jti until (witness now other expires_at db).1
unfolding witness
IsSeen-other jti other until now expires_at db ne h =
    let kept = find-remember_jti_other jti other expires_at db.jwt_replay h.row ne h.found in
    record { row = h.row; found = ground (arith, h.found, kept); lives = h.lives }

IsSeen-witness :
    (jti : String) (until : Instant) (c : WitnessCall) (db : Db)
    → IsSeen jti until db
    → c.now < until
    → IsSeen jti until (witness c.now c.jti c.expires_at db).1
IsSeen-witness jti until c db h early = elim (Bool-cases (jti == c.jti)) [
  | inr other ↦ IsSeen-other jti c.jti until c.now c.expires_at db other h
  | inl same ↦
      rw (← str_eq→≡ jti c.jti same) (rw (IsSeen-refuses jti until c.now c.expires_at db h early) h)
]

IsSeen-witness_all :
    (jti : String) (until : Instant) (cs : List WitnessCall) (db : Db)
    → IsSeen jti until db
    → All (λ c. c.now < until) cs
    → IsSeen jti until (witness_all cs db)
unfolding witness_all
IsSeen-witness_all jti until [] db h early = h
IsSeen-witness_all jti until (c ∷ cs) db h early =
    IsSeen-witness_all jti until cs _ (IsSeen-witness jti until c db h early.0) early.1

witness-IsSeen :
    (jti : String) (now until : Instant) (db db' : Db)
    → witness now jti until db ≡ (ok tt, db')
    → IsSeen jti until db'
unfolding witness
witness-IsSeen jti now until db db' e =
    let stored : db' ≡ record db { jwt_replay = remember_jti jti until db.jwt_replay } =
      ground arith in
    rw stored (remember-IsSeen jti until db)

-- A jti that Witness has accepted until some expiry is refused at every instant before that expiry,
-- and the table stays as it is, whatever requests for it and for other jtis came in between, as
-- long as they too came before the expiry.
pub witness_once :
    (jti : String) (now until later expires_at : Instant) (cs : List WitnessCall) (db db' : Db)
    → witness now jti until db ≡ (ok tt, db')
    → All (λ c. c.now < until) cs
    → later < until
    → witness later jti expires_at (witness_all cs db') ≡ (err replayed, witness_all cs db')
witness_once jti now until later expires_at cs db db' e calls early =
    IsSeen-refuses jti until later expires_at (witness_all cs db')
      (IsSeen-witness_all jti until cs db' (witness-IsSeen jti now until db db' e) calls) early

-- From its expiry on a jti is accepted again.
pub witness_expired :
    (jti : String) (now until later expires_at : Instant) (cs : List WitnessCall) (db db' : Db)
    → witness now jti until db ≡ (ok tt, db')
    → All (λ c. c.now < until) cs
    → until ≤ later
    → (witness later jti expires_at (witness_all cs db')).0 ≡ ok tt
unfolding witness
witness_expired jti now until later expires_at cs db db' e calls late =
    let h = IsSeen-witness_all jti until cs db' (witness-IsSeen jti now until db db' e) calls in
    let stale : ltb later h.row.expires_at ≡ false = ground (arith, h.lives) in
    ground (arith, h.found, stale)
