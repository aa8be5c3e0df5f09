-- ===== src/Pool/Leave/Loop.antt =====
-- The ledger under one round of the loop of RetireAccount: the seat is closed, and a card that runs
-- gets one of another account.
use gptshare.Base.{
  ℕ, ◌+◌, ◌≡◌, refl, ◌∙◌, ◌≢◌, Bool, true, false, List, [], ◌∷◌, ◌==◌, if◌then◌else◌, length, All,
  All-map, All-both, update_where, count_where, count_where-update-le, exists_where, arith,
  Bool-cases, inl, inr,
}
use gptshare.Pool.Types.{Account, Allocation, Reason, Db}
use gptshare.Pool.Tables.{occupies, occupancy, is_primary, can_reserve}
use gptshare.Pool.Seats.{active_primary}
use gptshare.Pool.Sweep.{replace_row}
use gptshare.Pool.Leave.{
  Leaving, open_row, open_primary, end_row, terminal_state, close_seat, close_primary,
  superseded_row, log_retired,
}
use gptshare.Pool.Leave.Items.{IsSeat, Waits}
use gptshare.Pool.Ledger.Rows.{Descending-update}
use gptshare.Pool.Ledger.Tracked.{Tracked-update, Tracked-insert, occupancy-leave}
use gptshare.Pool.Books.Defs.{Books}
use gptshare.Pool.Books.Replace.{one_more}
use gptshare.Pool.Books.Seats.{taken, taken-Books}
use gptshare.Pool.Books.Move.{can_reserve-id, can_reserve-room}

-- Between two rounds: the accounts' books are right but for the account that leaves, which stores as
-- many seats too many as were closed, and whose seats are the items that are left.
pub record Round (k : ℕ) (items : List Leaving) (db : Db) : Type 0 where
  pub excess : ℕ → ℕ
  pub only : (i : ℕ) → i ≢ k → excess i ≡ 0
  pub books : Books excess db
  pub waits : All (Waits k db.allocations) items
  pub count : occupancy k db.allocations ≡ length items

-- An update that closes the row of an item.
module _ (k : ℕ) (item : Leaving) (p : Allocation → Bool) (f : Allocation → Allocation)
    (mine : (l : Allocation) → p l ≡ true → l.id ≡ item.id)
    (hits : (l : Allocation) → l.id ≡ item.id → IsSeat k item.state l → p l ≡ true)
    (closed : (l : Allocation) → occupies (f l) ≡ false)
    (idle : (c : ℕ) (l : Allocation) → active_primary c (f l) ≡ false)
    (same_id : (l : Allocation) → (f l).id ≡ l.id) where
  abbrev after_close : Db → Db
  after_close db = record db { allocations = update_where p f db.allocations }

  close-occupancy :
      (db : Db)
      → Waits k db.allocations item
      → (i : ℕ)
      → occupancy i db.allocations
        ≡ occupancy i (update_where p f db.allocations) + (if i == k then 1 else 0)
  close-occupancy db t i = ground (
    arith,
    occupancy-leave p f item.id k (IsSeat k item.state)
        (λ l. (mine l, λ e q. (hits l e q, q.1, q.2), closed l)) i db.allocations t.row,
    t.once,
  )

  close-Books :
      (excess : ℕ → ℕ) (db : Db)
      → Waits k db.allocations item
      → Books excess db
      → Books (one_more excess k) (after_close db)
  close-Books excess db t b = record {
    distinct = b.distinct;
    owed =
        All-map (λ a. a.current_allocations ≡ occupancy a.id db.allocations + excess a.id) _
          (λ a o. omega (arith, o, close-occupancy db t a.id)) db.accounts b.owed;
    within = b.within;
    ordered = Descending-update p f same_id db.next_allocation db.allocations b.ordered;
    one_primary = λ c. omega (
      arith,
      b.one_primary c,
      count_where-update-le p f (active_primary c) (λ l e q. absurd (ground (arith, idle c l)))
          db.allocations,
    );
  }

  close-Waits :
      (other : Leaving) (db : Db)
      → other.id ≢ item.id
      → Waits k db.allocations other
      → Waits k (update_where p f db.allocations) other
  close-Waits other db apart =
      Tracked-update p f other.id (IsSeat k other.state) (IsSeat k other.state) db.allocations
        same_id (λ l i q e. absurd (apart (ground (arith, mine l)))) (λ l i q e. q)

  pub close-Round :
      (items : List Leaving) (db : Db)
      → All (λ j. j.id ≢ item.id) items
      → Round k (item ∷ items) db
      → Round k items (after_close db)
  close-Round items db apart r = record {
    excess = one_more r.excess k;
    only = λ i h. ground (arith, r.only i h, h);
    books = close-Books r.excess db r.waits.0 r.books;
    waits =
        All-both (λ j. j.id ≢ item.id) (Waits k db.allocations)
          (Waits k (update_where p f db.allocations)) (λ j a w. close-Waits j db a w) items apart
          r.waits.1;
    count = ground (arith, r.count, close-occupancy db r.waits.0 k);
  }

pub close_seat-Round :
    (now k : ℕ) (item : Leaving) (items : List Leaving) (db : Db)
    → All (λ j. j.id ≢ item.id) items
    → Round k (item ∷ items) db
    → Round k items (close_seat now item db)
unfolding close_seat occupies
close_seat-Round now k item items db =
    close-Round k item (open_row item) (end_row now (terminal_state item)) (λ l e. ground arith)
      (λ l e q. ground arith) (λ l. refl) (λ c l. ground arith) (λ l. refl) items db

primary_hit :
    (item : Leaving) (l : Allocation)
    → l.id ≡ item.id
    → l.active ≡ true
    → is_primary l.allocation_state ≡ true
    → open_primary item l ≡ true
primary_hit item l i active primary = ground arith

pub close_primary-Round :
    (now k : ℕ) (item : Leaving) (items : List Leaving) (db : Db)
    → is_primary item.state ≡ true
    → All (λ j. j.id ≢ item.id) items
    → Round k (item ∷ items) db
    → Round k items (close_primary now item db)
unfolding close_primary occupies
close_primary-Round now k item items db e =
    close-Round k item (open_primary item) (replace_row now Reason.account_retired)
      (λ l m. ground arith) (λ l i q. primary_hit item l i q.0 (q.3 ∙ e)) (λ l. refl)
      (λ c l. ground arith) (λ l. refl) items db

-- A seat of another account, taken for the card of an item.
pub taken-Round :
    (k now account_id card_id until : ℕ) (items : List Leaving) (db : Db)
    → account_id ≢ k
    → count_where (can_reserve account_id now) db.accounts ≡ 1
    → exists_where (active_primary card_id) db.allocations ≡ false
    → Round k items db
    → Round k items (taken (can_reserve account_id now) card_id account_id now until db)
unfolding occupancy
taken-Round k now account_id card_id until items db other one fresh r = record {
  excess = r.excess;
  only = r.only;
  books =
      taken-Books (can_reserve account_id now) account_id now (can_reserve-id account_id now)
        (can_reserve-room account_id now) r.excess card_id until db one fresh r.books;
  waits =
      All-map (Waits k db.allocations) _
        (λ j t.
          Tracked-insert j.id db.next_allocation (IsSeat k j.state) _ db.allocations r.books.ordered
            refl t)
        items r.waits;
  count = ground (arith, other, r.count);
}

occupancy-superseded :
    (id new_id i : ℕ) (ls : List Allocation)
    → occupancy i (update_where (λ l. l.id == id) (superseded_row new_id) ls) ≡ occupancy i ls
unfolding occupancy occupies
occupancy-superseded id new_id i [] = refl
occupancy-superseded id new_id i (l ∷ ls) = elim (Bool-cases (l.id == id)) [
  | inl e ↦ rw (e, occupancy-superseded id new_id i ls)
  | inr e ↦ rw (e, occupancy-superseded id new_id i ls)
]

-- The rows of superseded_by_allocation_id and replacement_history.
pub logged-Round :
    (now k : ℕ) (item : Leaving) (next : Account) (new_id : ℕ) (items : List Leaving) (db : Db)
    → Round k items db
    → Round k items (log_retired now k item next new_id db)
unfolding log_retired occupies
logged-Round now k item next new_id items db r =
    let mark = superseded_row new_id in
    record {
      excess = r.excess;
      only = r.only;
      books = record {
        distinct = r.books.distinct;
        owed =
            All-map (λ a. a.current_allocations ≡ occupancy a.id db.allocations + r.excess a.id) _
              (λ a o. rw (occupancy-superseded item.id new_id a.id db.allocations) o) db.accounts
              r.books.owed;
        within = r.books.within;
        ordered =
            Descending-update (λ l. l.id == item.id) mark (λ l. refl) db.next_allocation
              db.allocations r.books.ordered;
        one_primary = λ c. omega (
          arith,
          r.books.one_primary c,
          count_where-update-le (λ l. l.id == item.id) mark (active_primary c) (λ l e q. q)
              db.allocations,
        );
      };
      waits =
          All-map (Waits k db.allocations) _
            (λ j t.
              Tracked-update (λ l. l.id == item.id) mark j.id (IsSeat k j.state) (IsSeat k j.state)
                db.allocations (λ l. refl) (λ l i q e. q) (λ l i q e. q) t)
            items r.waits;
      count = rw (occupancy-superseded item.id new_id k db.allocations) r.count;
    }
