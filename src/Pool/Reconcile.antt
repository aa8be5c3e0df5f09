-- ===== src/Pool/Reconcile.antt =====
-- The two corrections at the end of a scan: reconcileAllocationCounts and
-- reconcileAccountAvailability.
pub mod Restore
use gptshare.Base.{
  ℕ, Bool, true, false, not, ◌&&◌, ◌||◌, List, [], ◌∷◌, ◌++◌, map, leb, ltb, ◌==◌, if◌then◌else◌,
  where_rows, update_where, count_where, length, is_none,
}
use gptshare.Time.{datetime}
use gptshare.Pool.Types.{Account, AccountStatus, Audit, count_reconciled, Db}
use gptshare.Pool.Tables.{
  is_available, is_full, is_expired, is_banned, is_disabled, is_dead_banned, is_dead_normal, after,
  occupancy,
}

abbrev pub drifted : Db → Account → Bool
drifted db a = is_none a.archived_at && not (a.current_allocations == occupancy a.id db.allocations)

-- The loop over the drifted rows: each row is set to the count that was read with it.
unfoldable pub fix_counts : List (ℕ × ℕ) → List Account → List Account
fix_counts [] rows = rows
fix_counts ((k, actual) ∷ r) rows = fix_counts r (
    update_where (λ a. a.id == k && is_none a.archived_at)
      (λ a. record a { current_allocations = actual }) rows)

unfoldable pub reconcile_allocation_counts : Db → Db × ℕ
unfolding fix_counts
reconcile_allocation_counts db =
    let drift = where_rows (drifted db) db.accounts in
    (
      record db {
        accounts = fix_counts (map (λ a. (a.id, occupancy a.id db.allocations)) drift) db.accounts;
        audits = map (λ a. count_reconciled a.id) drift ++ db.audits;
      },
      length drift,
    )

abbrev pub expires_now : ℕ → Account → Bool
expires_now now a =
    is_none a.archived_at
    && leb (datetime a.account_expiry) (datetime now)
    && not (is_disabled a.status || is_banned a.status || is_expired a.status)

abbrev pub can_restore : ℕ → Account → Bool
can_restore now a =
    is_full a.status
    && is_none a.archived_at
    && ltb a.current_allocations a.max_concurrent_users
    && after now a.account_expiry
    && not (is_dead_banned a.monitor_status || is_dead_normal a.monitor_status)

abbrev pub is_filled : Account → Bool
is_filled a =
    is_available a.status
    && is_none a.archived_at
    && leb a.max_concurrent_users a.current_allocations

abbrev pub with_status : AccountStatus → Account → Account
with_status s a = record a { status = s }

unfoldable pub reconcile_account_availability : ℕ → Db → Db × ℕ × ℕ
reconcile_account_availability now db =
    let expired = update_where (expires_now now) (with_status AccountStatus.expired) db.accounts in
    let restored = update_where (can_restore now) (with_status AccountStatus.available) expired in
    let filled = update_where is_filled (with_status AccountStatus.full) restored in
    (
      record db { accounts = filled },
      count_where (can_restore now) expired,
      count_where is_filled restored,
    )
