-- ===== src/Store/Identities.antt =====
-- completed/miaf-poc/pkg/mis/store/identities.go, with the constraints that schema.sql puts on
-- `ldis` and `esi_bindings`. A transaction that fails leaves the tables as they were.
pub mod Consistency
use specification_enhancemen.Prelude.{
  String, ◌<>◌, ◌==◌, Bool, true, false, ◌&&◌, ◌||◌, not, Option, none, some, List, [], ◌∷◌, ◌++◌,
  Result, ok, err, if◌then◌else◌, any, find, select, modify, order_by,
}
use specification_enhancemen.Instant.{Instant, text_lt}
use specification_enhancemen.Errors.{Err}
use specification_enhancemen.Store.{Ldi, LdiStatus, EsiBinding, BindingStatus, bound, Db}

-- fmt.Sprintf("spiffe://%s/margo/device/%s", trustDomain, id)
unfoldable pub device_spiffe_id : String → String → String
device_spiffe_id trust_domain id = "spiffe://" <> trust_domain <> "/margo/device/" <> id

abbrev pub is_bound : BindingStatus → Bool
is_bound bound = true
is_bound BindingStatus.retired = false

abbrev pub has_uuid : String → Ldi → Bool
has_uuid id l = l.uuid == id

abbrev pub has_spiffe_id : String → Ldi → Bool
has_spiffe_id s l = l.spiffe_id == s

abbrev pub has_esi : String → EsiBinding → Bool
has_esi e b = b.esi == e

-- WHERE ldi_uuid = ? AND status = 'active'
abbrev pub is_bound_to : String → EsiBinding → Bool
is_bound_to id b = b.ldi_uuid == id && is_bound b.status

-- INSERT INTO ldis: PRIMARY KEY uuid, UNIQUE spiffe_id
unfoldable pub insert_ldi : Ldi → Db → Option Db
insert_ldi l db =
    if any (has_uuid l.uuid) db.ldis || any (has_spiffe_id l.spiffe_id) db.ldis
    then none
    else some (record db { ldis = db.ldis ++ l ∷ [] })

-- INSERT INTO esi_bindings of an active row: REFERENCES ldis, the unique index on esi, and the
-- unique index on ldi_uuid among the active rows
unfoldable pub insert_binding : EsiBinding → Db → Option Db
insert_binding b db =
    if not (any (has_uuid b.ldi_uuid) db.ldis)
    then none
    else if any (has_esi b.esi) db.esi_bindings
    then none
    else if is_bound b.status && any (is_bound_to b.ldi_uuid) db.esi_bindings
    then none
    else some (record db { esi_bindings = db.esi_bindings ++ b ∷ [] })

-- LookupByESI: the binding joined with its LDI
unfoldable pub lookup_by_esi : String → Db → Result Err (EsiBinding × Ldi)
lookup_by_esi esi db = elim (find (has_esi esi) db.esi_bindings) [
  | none ↦ err Err.not_found
  | some b ↦ elim (find (has_uuid b.ldi_uuid) db.ldis) [
    | none ↦ err Err.not_found
    | some l ↦ ok (b, l)
  ]
]

-- CreateLDIAndBind; `id` is what uuid.New draws in this call.
unfoldable pub create_ldi_and_bind :
    String → Instant → String → String → String → Db → Result Err Ldi × Db
unfolding device_spiffe_id
create_ldi_and_bind id now esi method trust_domain db =
    let l : Ldi = record {
      uuid = id;
      spiffe_id = device_spiffe_id trust_domain id;
      status = LdiStatus.active;
      created_at = now;
      updated_at = now;
    } in
    let b : EsiBinding = record {
      esi = esi;
      ldi_uuid = id;
      method = method;
      status = bound;
      bound_at = now;
      retired_at = none;
    } in
    elim (insert_ldi l db) [
      | none ↦ (err Err.constraint_failed, db)
      | some db₁ ↦ elim (insert_binding b db₁) [
        | none ↦ (err Err.constraint_failed, db)
        | some db₂ ↦ (ok l, db₂)
      ]
    ]

-- UPDATE esi_bindings SET status = 'retired', retired_at = ? WHERE ldi_uuid = ? AND status = 'active'
unfoldable pub retire_bindings : Instant → String → List EsiBinding → List EsiBinding
retire_bindings now id =
    modify (is_bound_to id)
      (λ b. record b { status = BindingStatus.retired; retired_at = some now })

-- UPDATE ldis SET updated_at = ? WHERE uuid = ?
unfoldable pub touch_ldi : Instant → String → List Ldi → List Ldi
touch_ldi now id = modify (has_uuid id) (λ l. record l { updated_at = now })

-- Rebind
unfoldable pub rebind : Instant → String → String → String → Db → Result Err EsiBinding × Db
unfolding retire_bindings touch_ldi
rebind now id esi method db =
    let b : EsiBinding = record {
      esi = esi;
      ldi_uuid = id;
      method = method;
      status = bound;
      bound_at = now;
      retired_at = none;
    } in
    if not (any (has_uuid id) db.ldis)
    then (err Err.not_found, db)
    else elim (insert_binding b
        (record db { esi_bindings = retire_bindings now id db.esi_bindings })) [
          | none ↦ (err Err.constraint_failed, db)
          | some db₁ ↦ (ok b, record db₁ { ldis = touch_ldi now id db₁.ldis })
        ]

-- GetLDI
unfoldable pub get_ldi : String → Db → Result Err Ldi
get_ldi id db = elim (find (has_uuid id) db.ldis) [ none ↦ err Err.not_found | some l ↦ ok l ]

-- GetLDIBySPIFFEID
unfoldable pub get_ldi_by_spiffe_id : String → Db → Result Err Ldi
get_ldi_by_spiffe_id s db = elim (find (has_spiffe_id s) db.ldis) [
  | none ↦ err Err.not_found
  | some l ↦ ok l
]

-- ListBindings, ORDER BY bound_at ASC
unfoldable pub list_bindings : String → Db → List EsiBinding
list_bindings id db =
    order_by (λ a b. not (text_lt b.bound_at a.bound_at))
      (select (λ b. b.ldi_uuid == id) db.esi_bindings)

-- SetLDIStatus
unfoldable pub set_ldi_status : Instant → String → LdiStatus → Db → Result Err (Unit {0}) × Db
set_ldi_status now id status db =
    if any (has_uuid id) db.ldis
    then (
      ok tt,
      record db {
        ldis = modify (has_uuid id) (λ l. record l { status = status; updated_at = now }) db.ldis;
      },
    )
    else (err Err.not_found, db)
