-- ===== src/Store/RevokedSvids/Pruning.antt =====
-- List and PruneExpired of store/revoked_svids.go.
use specification_enhancemen.Prelude.{
  Bool, ◌+◌, true, ◌≡◌, refl, All, length, select-select_of, length-select-not, All-select_own,
}
use specification_enhancemen.Instant.{Instant, text_lt}
use specification_enhancemen.Instant.Order.{IsFrom, text_lt-IsFrom}
use specification_enhancemen.Store.{RevocationEntry, Db}
use specification_enhancemen.Store.RevokedSvids.{list_revocations, prune_expired}

-- PruneExpired leaves only rows that have not expired, in the order of the stored times, and returns the
-- number of those that it removes. List gives the same entries and the same date as without it, at the
-- instant of the pruning and in every later second.
pub list_revocations-prune_expired :
    (now later : Instant) (db : Db)
    → IsFrom now later
    → (list_revocations later (prune_expired now db).1 ≡ list_revocations later db)
      × All (λ e. text_lt now e.not_after ≡ true) (prune_expired now db).1.revoked_svids
      × ((prune_expired now db).0 + length (prune_expired now db).1.revoked_svids
          ≡ length db.revoked_svids)
unfolding list_revocations prune_expired
list_revocations-prune_expired now later db from =
    let live : RevocationEntry → Bool = λ e. text_lt now e.not_after in
    (
      rw
          (select-select_of (λ (e : RevocationEntry). text_lt later e.not_after) live
            (λ e. text_lt-IsFrom now later e.not_after from) db.revoked_svids)
          refl,
      All-select_own live db.revoked_svids,
      length-select-not live db.revoked_svids,
    )
