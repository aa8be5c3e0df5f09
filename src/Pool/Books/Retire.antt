-- ===== src/Pool/Books/Retire.antt =====
-- The ledger under archiveRetiredAccount and the two corrections at the end of a scan.
use gptshare.Base.{
  ℕ, ◌+◌, ◌≤◌, ◌≡◌, refl, Bool, true, false, ◌&&◌, List, [], ◌∷◌, map, ◌==◌, All, All-update,
  All-on_map, update_where, where_rows, count_where, exists_where, is_none, arith, Bool-cases, inl,
  inr,
}
use gptshare.Pool.Types.{Account, AccountStatus, Allocation, Db}
use gptshare.Pool.Tables.{occupies, occupancy}
use gptshare.Pool.Retire.{
  RetireReason, retirable, archive_row, archive_retired_account, archive_all,
  offline_account_candidates, retire_offline_accounts,
}
use gptshare.Pool.Reconcile.{
  drifted, fix_counts, reconcile_allocation_counts, expires_now, can_restore, is_filled,
  with_status, reconcile_account_availability,
}
use gptshare.Pool.Ledger.Rows.{Owed, Within, Distinct-update}
use gptshare.Pool.Books.Defs.{IsSound, nothing, Books-same}

-- Updates of accounts that keep each row's id and its place in the ledger.
module _ (p : Account → Bool) (f : Account → Account) (db : Db)
    (same_id : (a : Account) → (f a).id ≡ a.id)
    (balanced : (a : Account)
      → p a ≡ true
      → a.current_allocations ≡ occupancy a.id db.allocations + 0
      → (f a).current_allocations ≡ occupancy (f a).id db.allocations + 0)
    (within : (a : Account)
      → p a ≡ true
      → a.current_allocations ≡ occupancy a.id db.allocations + 0
      → a.current_allocations ≤ a.max_concurrent_users
      → (f a).current_allocations ≤ (f a).max_concurrent_users) where
  in_range :
      (rows : List Account)
      → Owed nothing db.allocations rows
      → Within rows
      → Within (update_where p f rows)
  in_range [] o w = tt
  in_range (a ∷ rows) o w = elim (Bool-cases (p a)) [
    | inl e ↦ rw e (within a e o.0 w.0, in_range rows o.1 w.1)
    | inr e ↦ rw e (w.0, in_range rows o.1 w.1)
  ]

  pub accounts-Books : IsSound db → IsSound (record db { accounts = update_where p f db.accounts })
  accounts-Books b = record {
    distinct = Distinct-update p f same_id db.accounts b.distinct;
    owed =
        All-update p f (λ a. a.current_allocations ≡ occupancy a.id db.allocations + 0) _ balanced
          (λ a e h. h) db.accounts b.owed;
    within = in_range db.accounts b.owed b.within;
    ordered = b.ordered;
    one_primary = b.one_primary;
  }

no_seats :
    (k : ℕ) (ls : List Allocation)
    → exists_where (λ l. l.account_id == k && l.active) ls ≡ false
    → occupancy k ls ≡ 0
unfolding occupancy occupies
no_seats k [] h = refl
no_seats k (l ∷ ls) h = ground (arith, no_seats k ls)

pub archive-IsSound :
    (reason : RetireReason) (now k : ℕ) (db : Db)
    → IsSound db
    → IsSound (archive_retired_account reason now k db).0
unfolding archive_retired_account
archive-IsSound reason now k db b =
    let rows =
      accounts-Books (retirable reason now k db) (archive_row now) db (λ a. refl)
        (λ a e h. ground (arith, no_seats k db.allocations)) (λ a e h w. omega arith) b in
    elim (Bool-cases (count_where (retirable reason now k db) db.accounts == 1)) [
      | inl e ↦ rw e (
          Books-same nothing
            (record db {
              accounts = update_where (retirable reason now k db) (archive_row now) db.accounts;
            })
            _ refl refl refl rows)
      | inr e ↦ rw e rows
    ]

archive_all-IsSound :
    (reason : RetireReason) (now : ℕ) (ks : List ℕ) (db : Db)
    → IsSound db
    → IsSound (archive_all reason now ks db).0
unfolding archive_all
archive_all-IsSound reason now [] db b = b
archive_all-IsSound reason now (k ∷ ks) db b =
    archive_all-IsSound reason now ks (archive_retired_account reason now k db).0
      (archive-IsSound reason now k db b)

pub retire-IsSound : (now : ℕ) (db : Db) → IsSound db → IsSound (retire_offline_accounts now db).0
unfolding retire_offline_accounts
retire-IsSound now db b = archive_all-IsSound RetireReason.expired now _ _ (
    archive_all-IsSound RetireReason.banned now
      (offline_account_candidates RetireReason.banned now db) db b)

fix_counts-IsSound :
    (g : List (ℕ × ℕ)) (db : Db)
    → All (λ x. x.1 ≡ occupancy x.0 db.allocations) g
    → IsSound db
    → IsSound (record db { accounts = fix_counts g db.accounts })
unfolding fix_counts
fix_counts-IsSound [] db h b = b
fix_counts-IsSound ((k, actual) ∷ g) db h b =
    fix_counts-IsSound g
      (record db {
        accounts =
            update_where (λ a. a.id == k && is_none a.archived_at)
              (λ a. record a { current_allocations = actual }) db.accounts;
      })
      h.1
      (accounts-Books (λ a. a.id == k && is_none a.archived_at)
        (λ a. record a { current_allocations = actual }) db (λ a. refl)
        (λ a e q. ground (arith, h.0)) (λ a e q w. ground (arith, h.0)) b)

All-same : (f : Account → ℕ) (rows : List Account) → All (λ a. f a ≡ f a) rows
All-same f [] = tt
All-same f (a ∷ rows) = (refl, All-same f rows)

pub reconcile_counts-IsSound : (db : Db) → IsSound db → IsSound (reconcile_allocation_counts db).0
unfolding reconcile_allocation_counts
reconcile_counts-IsSound db b =
    Books-same nothing
      (record db {
        accounts =
            fix_counts
              (map (λ a. (a.id, occupancy a.id db.allocations))
                (where_rows (drifted db) db.accounts))
              db.accounts;
      })
      _ refl refl refl
      (fix_counts-IsSound _ db
        (All-on_map _ (λ a. (a.id, occupancy a.id db.allocations))
          (where_rows (drifted db) db.accounts)
          (All-same (λ a. occupancy a.id db.allocations) (where_rows (drifted db) db.accounts)))
        b)

with_status-IsSound :
    (p : Account → Bool) (s : AccountStatus) (db : Db)
    → IsSound db
    → IsSound (record db { accounts = update_where p (with_status s) db.accounts })
with_status-IsSound p s db =
    accounts-Books p (with_status s) db (λ a. refl) (λ a e h. h) (λ a e h w. w)

pub availability-IsSound :
    (now : ℕ) (db : Db) → IsSound db → IsSound (reconcile_account_availability now db).0
unfolding reconcile_account_availability
availability-IsSound now db b = with_status-IsSound is_filled AccountStatus.full _ (
    with_status-IsSound (can_restore now) AccountStatus.available _
      (with_status-IsSound (expires_now now) AccountStatus.expired db b))
