-- ===== src/Pool/Books/Replace.antt =====
-- The ledger and the followed row under the steps of replaceOneAllocation.
use gptshare.Base.{
  ℕ, ◌+◌, ◌≡◌, refl, true, false, ◌==◌, if◌then◌else◌, All-map, count_where-update-le, arith,
  Bool-cases, inl, inr, where_rows,
}
use gptshare.Pool.Types.{Allocation, Db}
use gptshare.Pool.Tables.{is_primary, is_replaced, occupies, occupancy, group_by_account}
use gptshare.Pool.Seats.{active_primary}
use gptshare.Pool.Sweep.{
  replace_row, active_grace, card_grace, supersede_card_grace_allocations, close_grace_allocations,
  settle, is_empty,
}
use gptshare.Pool.Replace.{Due, due_row, closed_row, grace_row, close_old, release_old}
use gptshare.Pool.Ledger.Rows.{Descending-update}
use gptshare.Pool.Ledger.Release.{release-Owed, release-Distinct, release-Within}
use gptshare.Pool.Ledger.Tracked.{Tracked, Tracked-update, occupancy-leave}
use gptshare.Pool.Books.Defs.{Books}
use gptshare.Pool.Books.Sweep.{replace_row-idle}

-- The row of an item that has yet to be moved, and the row between the two updates of the move.
abbrev pub IsDue : ℕ → Allocation → Type 0
IsDue old l = (l.active ≡ true) × (is_primary l.allocation_state ≡ true) × (l.account_id ≡ old)

abbrev pub IsClosed : ℕ → Allocation → Type 0
IsClosed old l = (l.active ≡ false) × (is_replaced l.allocation_state ≡ true) × (l.account_id ≡ old)

abbrev pub Awaits : Due → Db → Type 0
Awaits item db = Tracked item.allocation_id (IsDue item.old_account_id) db.allocations

abbrev pub one_more : (ℕ → ℕ) → ℕ → ℕ → ℕ
one_more excess k i = excess i + (if i == k then 1 else 0)

module _ (excess : ℕ → ℕ) (now : ℕ) (item : Due) where
  IsDue-facts :
      (l : Allocation)
      → (due_row item l ≡ true → l.id ≡ item.allocation_id)
        × (l.id ≡ item.allocation_id
            → IsDue item.old_account_id l
            → (due_row item l ≡ true) × (occupies l ≡ true) × (l.account_id ≡ item.old_account_id))
        × (occupies (replace_row now item.reason l) ≡ false)
  unfolding occupies
  IsDue-facts l = (
    λ h. ground arith,
    λ e q. (ground arith, ground arith, q.2),
    replace_row-idle now item.reason l,
  )

  pub close_old-Books :
      (db : Db)
      → Awaits item db
      → Books excess db
      → Books (one_more excess item.old_account_id) (close_old now item db)
  unfolding close_old
  close_old-Books db t b = record {
    distinct = b.distinct;
    owed =
        All-map (λ a. a.current_allocations ≡ occupancy a.id db.allocations + excess a.id) _
          (λ a o. ground (
            arith,
            occupancy-leave (due_row item) (replace_row now item.reason) item.allocation_id
                item.old_account_id (IsDue item.old_account_id) IsDue-facts a.id db.allocations
                t.row,
            t.once,
          ))
          db.accounts b.owed;
    within = b.within;
    ordered =
        Descending-update (due_row item) (replace_row now item.reason) (λ l. refl)
          db.next_allocation db.allocations b.ordered;
    one_primary = λ c. omega (
      arith,
      b.one_primary c,
      count_where-update-le (due_row item) (replace_row now item.reason) (active_primary c)
          (λ l e q. ground arith) db.allocations,
    );
  }

  pub close_old-Tracked :
      (db : Db)
      → Awaits item db
      → Tracked item.allocation_id
          (IsClosed item.old_account_id)
          (close_old now item db).allocations
  unfolding close_old
  close_old-Tracked db =
      Tracked-update (due_row item) (replace_row now item.reason) item.allocation_id
        (IsDue item.old_account_id) (IsClosed item.old_account_id) db.allocations (λ l. refl)
        (λ l i q e. (refl, refl, q.2)) (λ l i q e. absurd (ground arith))

  pub release_old-Books :
      (db : Db)
      → Books (one_more excess item.old_account_id) db
      → Books excess (release_old item db)
  unfolding release_old
  release_old-Books db b = record {
    distinct = release-Distinct item.old_account_id 1 db.accounts b.distinct;
    owed =
        release-Owed item.old_account_id 1 (one_more excess item.old_account_id) excess
          db.allocations db.accounts (λ i. refl) b.owed;
    within = release-Within item.old_account_id 1 db.accounts b.within;
    ordered = b.ordered;
    one_primary = b.one_primary;
  }

  pub grace_facts :
      (new_id : ℕ) (l : Allocation)
      → (closed_row item l ≡ true → l.id ≡ item.allocation_id)
        × (l.id ≡ item.allocation_id
            → IsClosed item.old_account_id l
            → (closed_row item l ≡ true)
              × (occupies l ≡ false)
              × (l.account_id ≡ item.old_account_id))
        × (occupies (grace_row now item.reason new_id l) ≡ true)
        × ((grace_row now item.reason new_id l).account_id ≡ l.account_id)
  unfolding occupies
  grace_facts new_id l = (λ h. ground arith, λ e q. (ground arith, ground arith, q.2), refl, refl)

-- What the closing of other rows of grace leaves of a tracked row.
pub supersede-Tracked :
    (x card_id now : ℕ) (Q : Allocation → Type 0) (db : Db)
    → ((l : Allocation) → Q l → active_grace l ≡ false)
    → Tracked x Q db.allocations
    → Tracked x Q (supersede_card_grace_allocations card_id now db).allocations
unfolding supersede_card_grace_allocations close_grace_allocations settle
supersede-Tracked x card_id now Q db inert t =
    elim (Bool-cases
      (is_empty (group_by_account (where_rows (card_grace card_id db) db.allocations)))) [
        | inl e ↦ rw e t
        | inr e ↦ rw e (
            Tracked-update (card_grace card_id db) _ x Q Q db.allocations (λ l. refl)
              (λ l i q m. absurd (ground (arith, inert l q))) (λ l i q m. q) t)
      ]
