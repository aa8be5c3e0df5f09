-- ===== src/Pool/Books/Queue.antt =====
-- The ledger under the loop of ProcessReplacements over the cards that it moves.
use gptshare.Base.{
  ℕ, ◌≡◌, refl, ◌≢◌, false, Option, none, some, List, [], ◌∷◌, All, All-both, arith, Bool-cases,
  inl, inr,
}
use gptshare.Pool.Types.{Allocation, Replacement, Audit, Db, Result, ok, err}
use gptshare.Pool.Sweep.{active_grace, supersede_card_grace_allocations, replace_row}
use gptshare.Pool.Replace.{
  Due, due_row, closed_row, grace_row, close_old, keep_grace, release_old, end_old,
  replacement_keeps_grace, replace_one_allocation, settle_isolated, replace_one_allocation_isolated,
}
use gptshare.Pool.Process.{tally, replace_all}
use gptshare.Pool.Ledger.Rows.{Descending, Descending-update}
use gptshare.Pool.Ledger.Tracked.{Tracked-update, Tracked-insert}
use gptshare.Pool.Books.Defs.{Books, Books-same}
use gptshare.Pool.Books.Replace.{IsDue, Awaits, supersede-Tracked}
use gptshare.Pool.Books.Move.{replace_one-Completed, replace_one-Books}

due_inert : (old : ℕ) (l : Allocation) → IsDue old l → active_grace l ≡ false
due_inert old l q = ground arith

-- Items of different rows.
abbrev pub Apart : List Due → Type 0
Apart [] = Unit {0}
Apart (i ∷ items) = All (λ j. j.allocation_id ≢ i.allocation_id) items × Apart items

module _ (now : ℕ) (item other : Due) (apart : other.allocation_id ≢ item.allocation_id) where
  close_old-Awaits : (db : Db) → Awaits other db → Awaits other (close_old now item db)
  unfolding close_old
  close_old-Awaits db =
      Tracked-update (due_row item) (replace_row now item.reason) other.allocation_id
        (IsDue other.old_account_id) (IsDue other.old_account_id) db.allocations (λ l. refl)
        (λ l i q e. absurd (apart (ground arith))) (λ l i q e. q)

  end_old-Awaits :
      (new_id : ℕ) (db : Db) → Awaits other db → Awaits other (end_old now item new_id db)
  unfolding end_old keep_grace release_old
  end_old-Awaits new_id db t = elim (Bool-cases (replacement_keeps_grace item.reason)) [
    | inl e ↦ rw e (
        Tracked-update (closed_row item) (grace_row now item.reason new_id) other.allocation_id
          (IsDue other.old_account_id) (IsDue other.old_account_id)
          (supersede_card_grace_allocations item.card_id now db).allocations (λ l. refl)
          (λ l i q c. absurd (apart (ground arith))) (λ l i q c. q)
          (supersede-Tracked other.allocation_id item.card_id now (IsDue other.old_account_id) db
            (due_inert other.old_account_id) t))
    | inr e ↦ rw e t
  ]

  close_old-Descending :
      (db : Db)
      → Descending db.next_allocation db.allocations
      → Descending (close_old now item db).next_allocation (close_old now item db).allocations
  unfolding close_old
  close_old-Descending db =
      Descending-update (due_row item) (replace_row now item.reason) (λ l. refl) db.next_allocation
        db.allocations

  replace_one-Awaits :
      (db : Db) {r : Db × Replacement}
      → Descending db.next_allocation db.allocations
      → Awaits other db
      → replace_one_allocation now item db ≡ ok r
      → Awaits other r.0
  replace_one-Awaits db ordered t h =
      let d = replace_one-Completed now item db h in
      rw d.result (
        end_old-Awaits (close_old now item db).next_allocation _ (
          Tracked-insert other.allocation_id (close_old now item db).next_allocation
            (IsDue other.old_account_id) _ (close_old now item db).allocations
            (close_old-Descending db ordered) refl (close_old-Awaits db t)))

isolated-ok :
    (P : Db → Type 0) (now : ℕ) (item : Due) (db : Db)
    → ((r : Db × Replacement) → replace_one_allocation now item db ≡ ok r → P r.0)
    → (audited : (log : List Audit) → P (record db { audits = log }))
    → P (replace_one_allocation_isolated now item db).db
unfolding replace_one_allocation_isolated settle_isolated
isolated-ok P now item db done failed = split (replace_one_allocation now item db) done
  where
    split :
        (m : Result (Db × Replacement))
        → ((r : Db × Replacement) → m ≡ ok r → P r.0)
        → P (settle_isolated item db m).db
    split (ok r) done = done r refl
    split (err e) done = failed _

-- One item of the scan.
isolated-Books :
    (excess : ℕ → ℕ) (now : ℕ) (item : Due) (db : Db)
    → Awaits item db
    → Books excess db
    → Books excess (replace_one_allocation_isolated now item db).db
isolated-Books excess now item db t b =
    isolated-ok (Books excess) now item db (λ r h. replace_one-Books excess now item db t b h)
      (λ log. Books-same excess db (record db { audits = log }) refl refl refl b)

isolated-Awaits :
    (now : ℕ) (item other : Due)
    → other.allocation_id ≢ item.allocation_id
    → (db : Db) → Descending db.next_allocation db.allocations
    → Awaits other db
    → Awaits other (replace_one_allocation_isolated now item db).db
isolated-Awaits now item other apart db ordered t =
    isolated-ok (Awaits other) now item db
      (λ r h. replace_one-Awaits now item other apart db ordered t h) (λ log. t)

tally-db : (o : Option Replacement) (t : Db × List Replacement × ℕ) → (tally o t).0 ≡ t.0
unfolding tally
tally-db none t = refl
tally-db (some r) t = refl

-- The whole loop keeps the books.
pub replace_all-Books :
    (excess : ℕ → ℕ) (now : ℕ) (items : List Due) (db : Db)
    → All (λ item. Awaits item db) items
    → Apart items
    → Books excess db
    → Books excess (replace_all now items db).0
unfolding replace_all
replace_all-Books excess now [] db t apart b = b
replace_all-Books excess now (item ∷ items) db t apart b =
    let next = (replace_one_allocation_isolated now item db).db in
    let later =
      All-both (λ other. other.allocation_id ≢ item.allocation_id) (λ other. Awaits other db)
        (λ other. Awaits other next) (λ other a w. isolated-Awaits now item other a db b.ordered w)
        items apart.0 t.1 in
    rw (tally-db (replace_one_allocation_isolated now item db).done (replace_all now items next)) (
      replace_all-Books excess now items next later apart.1
        (isolated-Books excess now item db t.0 b))
