-- ===== src/Pool/Books/Move.antt =====
-- The ledger under replaceOneAllocation of repository.go.
use gptshare.Base.{
  ℕ, ◌+◌, ◌<◌, ◌≡◌, refl, sym, ap, ◌∙◌, true, false, All-map, count_where, count_where-update-le,
  exists_where, arith, Bool-cases, inl, inr, some,
}
use gptshare.Pool.Types.{
  Account, Allocation, Replacement, Db, ok, or_fail, no_account_capacity, >>=-eq-ok, or_fail-eq-ok,
  ok-injective,
}
use gptshare.Pool.Tables.{occupancy, can_reserve}
use gptshare.Pool.Candidate.{select_card_candidate}
use gptshare.Pool.Seats.{reserve_account_capacity, active_primary}
use gptshare.Pool.Sweep.{active_grace, supersede_card_grace_allocations}
use gptshare.Pool.Replace.{
  Due, closed_row, grace_row, close_old, keep_grace, end_old, entry_of, log_move, move_seat,
  replacement_keeps_grace, replace_one_allocation,
}
use gptshare.Pool.Ledger.Rows.{Descending-update}
use gptshare.Pool.Ledger.Tracked.{Tracked, Tracked-insert, occupancy-enter}
use gptshare.Pool.Books.Defs.{Books, Books-same}
use gptshare.Pool.Books.Seats.{take-eq, taken, taken-Books}
use gptshare.Pool.Books.Sweep.{supersede-Books}
use gptshare.Pool.Books.Replace.{
  IsClosed, Awaits, one_more, close_old-Books, close_old-Tracked, release_old-Books, grace_facts,
  supersede-Tracked,
}

closed_inert : (old : ℕ) (l : Allocation) → IsClosed old l → active_grace l ≡ false
closed_inert old l q = ground arith

pub keep_grace-Books :
    (excess : ℕ → ℕ) (now : ℕ) (item : Due) (new_id : ℕ) (db : Db)
    → Tracked item.allocation_id (IsClosed item.old_account_id) db.allocations
    → Books (one_more excess item.old_account_id) db
    → Books excess (keep_grace now item new_id db)
unfolding keep_grace
keep_grace-Books excess now item new_id db t b =
    let late = supersede_card_grace_allocations item.card_id now db in
    let kept = supersede-Books (one_more excess item.old_account_id) item.card_id now db b in
    let followed =
      supersede-Tracked item.allocation_id item.card_id now (IsClosed item.old_account_id) db
        (closed_inert item.old_account_id) t in
    record {
      distinct = kept.distinct;
      owed =
          All-map
            (λ a.
              a.current_allocations
              ≡ occupancy a.id late.allocations + one_more excess item.old_account_id a.id)
            _
            (λ a o. ground (
              arith,
              occupancy-enter (closed_row item) (grace_row now item.reason new_id)
                  item.allocation_id item.old_account_id (IsClosed item.old_account_id)
                  (grace_facts excess now item new_id) a.id late.allocations followed.row,
              followed.once,
            ))
            late.accounts kept.owed;
      within = kept.within;
      ordered =
          Descending-update (closed_row item) (grace_row now item.reason new_id) (λ l. refl)
            late.next_allocation late.allocations kept.ordered;
      one_primary = λ c. omega (
        arith,
        kept.one_primary c,
        count_where-update-le (closed_row item) (grace_row now item.reason new_id)
            (active_primary c) (λ l e q. ground arith) late.allocations,
      );
    }

pub end_old-Books :
    (excess : ℕ → ℕ) (now : ℕ) (item : Due) (new_id : ℕ) (db : Db)
    → Tracked item.allocation_id (IsClosed item.old_account_id) db.allocations
    → Books (one_more excess item.old_account_id) db
    → Books excess (end_old now item new_id db)
unfolding end_old
end_old-Books excess now item new_id db t b =
    elim (Bool-cases (replacement_keeps_grace item.reason)) [
      | inl e ↦ rw e (keep_grace-Books excess now item new_id db t b)
      | inr e ↦ rw e (release_old-Books excess now item db b)
    ]

pub can_reserve-id : (k now : ℕ) (a : Account) → can_reserve k now a ≡ true → a.id ≡ k
can_reserve-id k now a h = ground arith

pub can_reserve-room :
    (k now : ℕ) (a : Account)
    → can_reserve k now a ≡ true
    → a.current_allocations < a.max_concurrent_users
can_reserve-room k now a h = ground arith

abbrev pub taken_db : ℕ → Due → Account → Db → Db
taken_db now item next db =
    taken (can_reserve next.id now) item.card_id next.id now item.card_expires_at
      (close_old now item db)

-- The steps of a completed move.
pub record Completed (now : ℕ) (item : Due) (db : Db) (r : Db × Replacement) : Type 0 where
  pub next : Account
  pub chosen :
      select_card_candidate now item.card_expires_at true item.old_account_id item.card_id false db
      ≡ some next
  pub seat : count_where (can_reserve next.id now) (close_old now item db).accounts ≡ 1
  pub fresh : exists_where (active_primary item.card_id) (close_old now item db).allocations ≡ false
  pub result : r ≡ (
    log_move item
        (entry_of now item next.id)
        (end_old now item (close_old now item db).next_allocation (taken_db now item next db)),
    entry_of now item next.id,
  )

move_seat-eq :
    (now : ℕ) (item : Due) (next : Account) (db : Db) {s : Db × ℕ}
    → move_seat now item next db ≡ ok s
    → (count_where (can_reserve next.id now) (close_old now item db).accounts ≡ 1)
      × (exists_where (active_primary item.card_id) (close_old now item db).allocations ≡ false)
      × (s ≡ (taken_db now item next db, (close_old now item db).next_allocation))
unfolding move_seat reserve_account_capacity
move_seat-eq now item next db h =
    take-eq (can_reserve next.id now) item.card_id next.id now item.card_expires_at
      (close_old now item db) h

pub replace_one-Completed :
    (now : ℕ) (item : Due) (db : Db) {r : Db × Replacement}
    → replace_one_allocation now item db ≡ ok r
    → Completed now item db r
unfolding replace_one_allocation
replace_one-Completed now item db h =
    let (next, chosen, h1) =
      >>=-eq-ok
        (or_fail
          (select_card_candidate now item.card_expires_at true item.old_account_id item.card_id
            false db)
          no_account_capacity)
        _ h in
    let (seated, given, h2) = >>=-eq-ok (move_seat now item next db) _ h1 in
    let (one, fresh, e) = move_seat-eq now item next db given in
    record {
      next = next;
      chosen = or_fail-eq-ok _ no_account_capacity chosen;
      seat = one;
      fresh = fresh;
      result =
          sym (ok-injective h2)
          ∙ ap
              (λ (s : Db × ℕ). (
                log_move item (entry_of now item next.id) (end_old now item s.1 s.0),
                entry_of now item next.id,
              ))
              e;
    }

-- On a database whose accounts store the seats that are held and a given excess, the completed
-- move of an item that names one active primary row of its old account keeps that so.
pub replace_one-Books :
    (excess : ℕ → ℕ) (now : ℕ) (item : Due) (db : Db) {r : Db × Replacement}
    → Awaits item db
    → Books excess db
    → replace_one_allocation now item db ≡ ok r
    → Books excess r.0
replace_one-Books excess now item db t b h =
    let d = replace_one-Completed now item db h in
    let more = one_more excess item.old_account_id in
    let closed = close_old-Books excess now item db t b in
    let moved =
      taken-Books (can_reserve d.next.id now) d.next.id now (can_reserve-id d.next.id now)
        (can_reserve-room d.next.id now) more item.card_id item.card_expires_at
        (close_old now item db) d.seat d.fresh closed in
    let followed =
      Tracked-insert item.allocation_id (close_old now item db).next_allocation
        (IsClosed item.old_account_id) _ (close_old now item db).allocations closed.ordered refl
        (close_old-Tracked excess now item db t) in
    let final =
      end_old-Books excess now item (close_old now item db).next_allocation
        (taken_db now item d.next db) followed moved in
    rw d.result (
      Books-same excess
        (end_old now item (close_old now item db).next_allocation (taken_db now item d.next db)) _
        refl refl refl final)
