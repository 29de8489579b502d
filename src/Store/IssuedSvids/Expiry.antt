-- ===== src/Store/IssuedSvids/Expiry.antt =====
-- The WHERE clause of ActiveBySPIFFEID (store/issued_svids.go), told in instants.
use specification_enhancemen.Prelude.{
  ℕ, ◌+◌, ◌*◌, ◌≤◌, ◌<◌, String, true, false, ◌≡◌, arith, ◌==◌, str_eq_refl, Bool-cases, inl, inr,
}
use specification_enhancemen.Instant.{Instant, second, text_lt}
use specification_enhancemen.Instant.Order.{text_lt-inverted, text_lt_of_gap, text_lt-slack}
use specification_enhancemen.Store.{IssuedSvid}
use specification_enhancemen.Store.IssuedSvids.{is_outstanding}

-- An unrevoked SVID of the SPIFFE ID that expires a second or more after the query is outstanding, and
-- one that expired a second or more before the query is not.
pub is_outstanding_bounds :
    (spiffe_id : String) (now later : Instant) (r : IssuedSvid)
    → r.revoked ≡ false
    → r.spiffe_id ≡ spiffe_id
    → now + second ≤ r.not_after
    → r.not_after + second ≤ later
    → (is_outstanding spiffe_id now r ≡ true) × (is_outstanding spiffe_id later r ≡ false)
unfolding is_outstanding
is_outstanding_bounds spiffe_id now later r live mine before after =
    let same : (r.spiffe_id == spiffe_id) ≡ true = rw mine (str_eq_refl spiffe_id) in
    let soon = text_lt_of_gap now r.not_after before in
    (
      ground arith,
      elim (Bool-cases (text_lt later r.not_after)) [
        | inl e ↦ absurd (omega (arith, text_lt-slack _ _ e))
        | inr e ↦ ground arith
      ],
    )

-- An unrevoked SVID that expires on a whole second counts as outstanding during the whole second
-- after its expiry: the text of the later instant sorts before that of the expiry.
pub is_outstanding_after_expiry :
    (s f : ℕ) (r : IssuedSvid)
    → r.revoked ≡ false
    → r.not_after ≡ s * second
    → 0 < f
    → f < second
    → (r.not_after < s * second + f) × (is_outstanding r.spiffe_id (s * second + f) r ≡ true)
unfolding is_outstanding
is_outstanding_after_expiry s f r live whole pos small =
    let early = text_lt-inverted s f pos small in
    (omega arith, rw (str_eq_refl r.spiffe_id, live, whole) early)
