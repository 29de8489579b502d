-- ===== src/Store/Identities/Consistency.antt =====
-- The well-formedness of the tables of store/identities.go, and its statements.
use specification_enhancemen.Prelude.{
  String, Bool, true, false, ◌&&◌, not, none, some, List, [], ◌∷◌, ◌++◌, ◌≡◌, refl, ap, arith, ok,
  any, select, modify, All, Apart, All-append, All-map, Apart-append_one, Apart-modify, All-modify,
  any-append, any-modify, any-modify_none, select-none, select-append, Bool-cases, Option-cases,
  inl, inr, str_eq_refl, ◌==◌, ◌∙◌,
}
use mathlib.Core.List.{append-nil}
use specification_enhancemen.Instant.{Instant}
use specification_enhancemen.Store.{Ldi, LdiStatus, EsiBinding, bound, Db}
use specification_enhancemen.Store.Identities.{
  is_bound, has_uuid, has_spiffe_id, has_esi, is_bound_to, device_spiffe_id, insert_ldi,
  insert_binding, create_ldi_and_bind, retire_bindings, touch_ldi, rebind, set_ldi_status,
}

abbrev pub same_uuid : Ldi → Ldi → Bool
same_uuid a b = has_uuid b.uuid a

abbrev pub same_spiffe_id : Ldi → Ldi → Bool
same_spiffe_id a b = has_spiffe_id b.spiffe_id a

abbrev pub same_esi : EsiBinding → EsiBinding → Bool
same_esi a b = has_esi b.esi a

-- The row that binds an ESI anew
abbrev pub new_binding : String → Instant → String → String → EsiBinding
new_binding id now esi method = record {
  esi = esi;
  ldi_uuid = id;
  method = method;
  status = bound;
  bound_at = now;
  retired_at = none;
}

-- Two active bindings of one LDI
abbrev pub both_bound : EsiBinding → EsiBinding → Bool
both_bound a b = is_bound b.status && is_bound_to b.ldi_uuid a

-- UUIDs, SPIFFE IDs and ESIs are unique, an LDI has at most one active binding, and every binding
-- belongs to an LDI.
pub record IsConsistent (db : Db) : Type 0 where
  pub uuids : Apart same_uuid db.ldis
  pub spiffe_ids : Apart same_spiffe_id db.ldis
  pub esis : Apart same_esi db.esi_bindings
  pub one_bound : Apart both_bound db.esi_bindings
  pub owned : All (λ b. any (has_uuid b.ldi_uuid) db.ldis ≡ true) db.esi_bindings

insert_ldi-IsConsistent :
    (l : Ldi) (db db' : Db) → insert_ldi l db ≡ some db' → IsConsistent db → IsConsistent db'
unfolding insert_ldi
insert_ldi-IsConsistent l db db' e h =
    let fresh_uuid : any (has_uuid l.uuid) db.ldis ≡ false = ground arith in
    let fresh_id : any (has_spiffe_id l.spiffe_id) db.ldis ≡ false = ground arith in
    let done : db' ≡ record db { ldis = db.ldis ++ l ∷ [] } = ground arith in
    rw done (record {
      uuids = Apart-append_one same_uuid db.ldis l h.uuids fresh_uuid;
      spiffe_ids = Apart-append_one same_spiffe_id db.ldis l h.spiffe_ids fresh_id;
      esis = h.esis;
      one_bound = h.one_bound;
      owned =
          All-map _ _ (λ b own. any-append (has_uuid b.ldi_uuid) db.ldis (l ∷ []) ∙ rw own refl)
            db.esi_bindings h.owned;
    })

insert_binding-IsConsistent :
    (b : EsiBinding) (db db' : Db)
    → b.status ≡ bound
    → insert_binding b db ≡ some db'
    → IsConsistent db
    → IsConsistent db'
unfolding insert_binding
insert_binding-IsConsistent b db db' new e h =
    let owner : any (has_uuid b.ldi_uuid) db.ldis ≡ true = ground arith in
    let fresh : any (has_esi b.esi) db.esi_bindings ≡ false = ground arith in
    let single : any (is_bound_to b.ldi_uuid) db.esi_bindings ≡ false = ground arith in
    let done : db' ≡ record db { esi_bindings = db.esi_bindings ++ b ∷ [] } = ground arith in
    rw done (record {
      uuids = h.uuids;
      spiffe_ids = h.spiffe_ids;
      esis = Apart-append_one same_esi db.esi_bindings b h.esis fresh;
      one_bound = Apart-append_one both_bound db.esi_bindings b h.one_bound (rw new single);
      owned = All-append _ db.esi_bindings (b ∷ []) h.owned (owner, tt);
    })

-- Retiring the bindings of an LDI
retire-IsConsistent :
    (now : Instant) (id : String) (db : Db)
    → IsConsistent db
    → IsConsistent (record db { esi_bindings = retire_bindings now id db.esi_bindings })
unfolding retire_bindings
retire-IsConsistent now id db h = record {
  uuids = h.uuids;
  spiffe_ids = h.spiffe_ids;
  esis = Apart-modify same_esi (is_bound_to id) _ (λ x y e. ground arith) db.esi_bindings h.esis;
  one_bound =
      Apart-modify both_bound (is_bound_to id) _ (λ x y e. ground arith) db.esi_bindings
        h.one_bound;
  owned = All-modify _ (is_bound_to id) _ (λ x own. own) db.esi_bindings h.owned;
}

-- An update of the LDI rows that keeps their names
update_ldis-IsConsistent :
    (p : Ldi → Bool) (f : Ldi → Ldi) (db : Db)
    → ((l : Ldi) → ((f l).uuid ≡ l.uuid) × ((f l).spiffe_id ≡ l.spiffe_id))
    → IsConsistent db
    → IsConsistent (record db { ldis = modify p f db.ldis })
update_ldis-IsConsistent p f db same h = record {
  uuids = Apart-modify same_uuid p f (λ x y e. ground (arith, same x, same y)) db.ldis h.uuids;
  spiffe_ids =
      Apart-modify same_spiffe_id p f (λ x y e. ground (arith, same x, same y)) db.ldis
        h.spiffe_ids;
  esis = h.esis;
  one_bound = h.one_bound;
  owned =
      All-map _ _
        (λ b own.
          any-modify (has_uuid b.ldi_uuid) p f (λ l. ap (λ u. u == b.ldi_uuid) ((same l).0)) db.ldis
          ∙ own)
        db.esi_bindings h.owned;
}

-- CreateLDIAndBind keeps the tables consistent, whether it succeeds or is rolled back.
pub create_ldi_and_bind-IsConsistent :
    (id : String) (now : Instant) (esi method trust_domain : String) (db : Db)
    → IsConsistent db
    → IsConsistent (create_ldi_and_bind id now esi method trust_domain db).1
unfolding create_ldi_and_bind
create_ldi_and_bind-IsConsistent id now esi method trust_domain db h =
    let l : Ldi = record {
      uuid = id;
      spiffe_id = device_spiffe_id trust_domain id;
      status = LdiStatus.active;
      created_at = now;
      updated_at = now;
    } in
    let b = new_binding id now esi method in
    elim (Option-cases (insert_ldi l db)) [
      | inl e ↦ rw (e, create_ldi_and_bind) h
      | inr (db₁, e) ↦
          let h₁ = insert_ldi-IsConsistent l db db₁ e h in
          elim (Option-cases (insert_binding b db₁)) [
            | inl f ↦ rw (e, create_ldi_and_bind) (rw f h)
            | inr (db₂, f) ↦
                rw (e, create_ldi_and_bind) (rw f (insert_binding-IsConsistent b db₁ db₂ refl f h₁))
          ]
    ]

-- Rebind keeps the tables consistent, whether it succeeds or is rolled back.
pub rebind-IsConsistent :
    (now : Instant) (id esi method : String) (db : Db)
    → IsConsistent db
    → IsConsistent (rebind now id esi method db).1
unfolding rebind touch_ldi
rebind-IsConsistent now id esi method db h =
    let b = new_binding id now esi method in
    let db₀ : Db = record db { esi_bindings = retire_bindings now id db.esi_bindings } in
    let h₀ : IsConsistent db₀ = retire-IsConsistent now id db h in
    elim (Bool-cases (any (has_uuid id) db.ldis)) [
      | inr e ↦ rw e h
      | inl e ↦ elim (Option-cases (insert_binding b db₀)) [
        | inl f ↦ rw e (rw f h)
        | inr (db₁, f) ↦ rw e (
            rw f (
              update_ldis-IsConsistent (has_uuid id) _ db₁ (λ l. (refl, refl))
                (insert_binding-IsConsistent b db₀ db₁ refl f h₀)))
      ]
    ]

pub set_ldi_status-IsConsistent :
    (now : Instant) (id : String) (status : LdiStatus) (db : Db)
    → IsConsistent db
    → IsConsistent (set_ldi_status now id status db).1
unfolding set_ldi_status
set_ldi_status-IsConsistent now id status db h = elim (Bool-cases (any (has_uuid id) db.ldis)) [
  | inl e ↦ rw e (update_ldis-IsConsistent (has_uuid id) _ db (λ l. (refl, refl)) h)
  | inr e ↦ rw e h
]

any-is_bound_to_retired :
    (now : Instant) (id : String) (rows : List EsiBinding)
    → any (is_bound_to id) (retire_bindings now id rows) ≡ false
unfolding retire_bindings
any-is_bound_to_retired now id rows =
    any-modify_none (is_bound_to id) (is_bound_to id) _ (λ b. ground arith) (λ b e. e) rows

-- Rebind of an LDI that exists to an ESI that was never bound always succeeds, and the new binding is
-- then the only active one of the LDI; the other rows are the previous ones, with the LDI's old
-- active binding retired.
pub rebind_total :
    (now : Instant) (id esi method : String) (db : Db)
    → any (has_uuid id) db.ldis ≡ true
    → any (has_esi esi) db.esi_bindings ≡ false
    → (db' : Db) × (rebind now id esi method db ≡ (ok (new_binding id now esi method), db'))
      × (select (is_bound_to id) db'.esi_bindings ≡ new_binding id now esi method ∷ [])
      × (select (λ b. not (is_bound_to id b)) db'.esi_bindings
          ≡ select (λ b. not (is_bound_to id b)) (retire_bindings now id db.esi_bindings))
unfolding rebind insert_binding
rebind_total now id esi method db known fresh =
    let b = new_binding id now esi method in
    let rows = retire_bindings now id db.esi_bindings in
    let gone : any (is_bound_to id) rows ≡ false = any-is_bound_to_retired now id db.esi_bindings in
    let unseen : any (has_esi esi) rows ≡ false =
      unfold retire_bindings in
      any-modify (has_esi esi) (is_bound_to id) _ (λ b. refl) db.esi_bindings ∙ fresh in
    let mine : is_bound_to id b ≡ true = rw (str_eq_refl id) refl in
    (
      record db { ldis = touch_ldi now id db.ldis; esi_bindings = rows ++ b ∷ [] },
      ground arith,
      select-append (is_bound_to id) rows (b ∷ [])
          ∙ rw (select-none (is_bound_to id) rows gone, mine) refl,
      select-append (λ b. not (is_bound_to id b)) rows (b ∷ []) ∙ rw mine (append-nil _),
    )
