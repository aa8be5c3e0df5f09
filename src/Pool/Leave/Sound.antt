-- ===== src/Pool/Leave/Sound.antt =====
-- The ledger under RetireAccount of repository.go.
use mathlib.Core.Bool.{false≢true}
use gptshare.Base.{
  ℕ, ◌+◌, ◌<◌, ◌≡◌, refl, sym, subst, ◌≢◌, true, false, Option, none, some, List, [], ◌∷◌, ◌==◌,
  length, All, All-both, All-map, All-update, ◌≤◌, ◌∙◌, update_where, count_where, exists_where,
  arith, Bool-cases, inl, inr,
}
use gptshare.Pool.Types.{
  Account, Db, Result, ok, err, no_rows, or_fail, or_fail-eq-ok, guard,
  account_replacement_unavailable, >>=-eq-ok, ok-injective,
}
use gptshare.Pool.Tables.{occupancy, can_reserve, is_primary}
use gptshare.Pool.Candidate.{select_card_candidate}
use gptshare.Pool.Candidate.Other.{select-other}
use gptshare.Pool.Seats.{reserve_account_capacity, insert_allocation, update_one}
use gptshare.Pool.Retire.{archive_row}
use gptshare.Pool.Leave.{
  Leaving, Tally, close_primary, effective_primary, unavailable, log_retired, move_away,
  retire_moved, retire_seat, counted, retire_seats, in_service, archive_account, leaving,
  retire_account,
}
use gptshare.Pool.Leave.Items.{Apart, HasCards, leaving-Listed}
use gptshare.Pool.Leave.Loop.{
  Round, close_seat-Round, close_primary-Round, taken-Round, logged-Round,
}
use gptshare.Pool.Ledger.Rows.{Distinct, Distinct-update}
use gptshare.Pool.Books.Defs.{Books-same, IsSound, nothing}
use gptshare.Pool.Books.Seats.{take, take-eq}

-- A call that succeeds leaves the state of the next round.
abbrev Goes : ℕ → List Leaving → Result Db → Type 0
Goes k items m = (after : Db) → m ≡ ok after → Round k items after

unavailable-eq-ok {ℓ} : {A : Type ℓ} (m : Result A) {x : A} → unavailable m ≡ ok x → m ≡ ok x
unavailable-eq-ok (ok y) h = h
unavailable-eq-ok (err e) h = cc

module _ (now k : ℕ) (pos : 0 < k) (item : Leaving) (items : List Leaving)
    (apart : All (λ j. j.id ≢ item.id) items) where
  move_away-Goes :
      (expires : ℕ) (db : Db)
      → is_primary item.state ≡ true
      → Round k (item ∷ items) db
      → Goes k items (move_away now k item expires db)
  unfolding move_away reserve_account_capacity
  move_away-Goes expires db primary r after h =
      let (next, found, h1) =
        >>=-eq-ok
          (or_fail (select_card_candidate now expires true k item.card_id false db)
            account_replacement_unavailable)
          _ h in
      let closed = close_primary now item db in
      let (reserved, seat, h2) =
        >>=-eq-ok (unavailable (update_one (can_reserve next.id now) now closed)) _ h1 in
      let (inserted, row, h3) =
        >>=-eq-ok (insert_allocation item.card_id next.id now item.valid_until reserved) _ h2 in
      let both : take (can_reserve next.id now) item.card_id next.id now item.valid_until closed
          ≡ ok inserted =
        rw (unavailable-eq-ok (update_one (can_reserve next.id now) now closed) seat) row in
      let (one, fresh, e) =
        take-eq (can_reserve next.id now) item.card_id next.id now item.valid_until closed both in
      let other =
        select-other now expires true k item.card_id false db next pos r.books.distinct
          (or_fail-eq-ok _ account_replacement_unavailable found) in
      let start = close_primary-Round now k item items db primary apart r in
      let seated =
        taken-Round k now next.id item.card_id item.valid_until items closed other one fresh
          start in
      subst (Round k items) (ok-injective h3) (
        subst (λ (q : Db × ℕ). Round k items (log_retired now k item next q.1 q.0)) (sym e)
          (logged-Round now k item next _ items _ seated))

  retire_moved-Goes :
      (expires : Option ℕ) (db : Db)
      → is_primary item.state ≡ true
      → Round k (item ∷ items) db
      → Goes k items (retire_moved now k item expires db)
  retire_moved-Goes none db primary r after h =
      subst (Round k items) (ok-injective h) (close_seat-Round now k item items db apart r)
  retire_moved-Goes (some t) db primary r after h = move_away-Goes t db primary r after h

  retire_seat-Goes :
      (db : Db) → Round k (item ∷ items) db → Goes k items (retire_seat now k item db)
  unfolding retire_seat effective_primary
  retire_seat-Goes db r after h = elim (Bool-cases (effective_primary now item)) [
    | inl e ↦ retire_moved-Goes item.card_expires_at db (ground arith) r after (rw e at h)
    | inr e ↦
        subst (Round k items) (ok-injective (rw e at h))
          (close_seat-Round now k item items db apart r)
  ]

counted-total :
    (now : ℕ) (item : Leaving) (t : Tally)
    → (counted now item t).replaced + (counted now item t).closed ≡ t.replaced + t.closed + 1
counted-total now item t = elim (Bool-cases (effective_primary now item)) [
  | inl e ↦ rw e (omega arith)
  | inr e ↦ rw e (omega arith)
]

retire_seats-Round :
    (now k : ℕ) (items : List Leaving) (s : Db × Tally) {r : Db × Tally}
    → 0 < k
    → Apart items
    → Round k items s.0
    → retire_seats now k items s ≡ ok r
    → Round k [] r.0 × (r.1.replaced + r.1.closed ≡ s.1.replaced + s.1.closed + length items)
unfolding retire_seats
retire_seats-Round now k [] s pos apart r h =
    subst
      (λ (q : Db × Tally).
        Round k [] q.0 × (q.1.replaced + q.1.closed ≡ s.1.replaced + s.1.closed + 0))
      (ok-injective h) (r, omega arith)
retire_seats-Round now k (item ∷ items) s pos apart r h =
    let (next, went, h1) = >>=-eq-ok (retire_seat now k item s.0) _ h in
    let step = retire_seat-Goes now k pos item items apart.0 s.0 r next went in
    let (end, total) =
      retire_seats-Round now k items (next, counted now item s.1) pos apart.1 step h1 in
    (end, omega (arith, total, counted-total now item s.1))

absent :
    (k : ℕ) (rows : List Account) → All (λ b. b.id ≢ k) rows → count_where (in_service k) rows ≡ 0
absent k [] h = refl
absent k (a ∷ rows) h = ground (arith, h.0, absent k rows h.1)

-- The account in service is the only row of its id.
serving :
    (k : ℕ) (rows : List Account)
    → Distinct rows
    → count_where (in_service k) rows ≡ 1
    → All (λ a. a.id ≡ k → in_service k a ≡ true) rows
serving k [] d h = tt
serving k (a ∷ rows) d h = elim (Bool-cases (in_service k a)) [
  | inl e ↦ (
    λ _. e,
    All-map (λ b. b.id ≢ a.id) _ (λ b other same. absurd (other (ground arith))) rows d.0,
  )
  | inr e ↦ (
    λ same. absurd (ground (arith, absent k rows (subst (λ i. All (λ b. b.id ≢ i) rows) same d.0))),
    serving k rows d.1 (ground arith),
  )
]

archive-books :
    (now k : ℕ) (db : Db)
    → count_where (in_service k) db.accounts ≡ 1
    → Round k [] db
    → IsSound (record db { accounts = update_where (in_service k) (archive_row now) db.accounts })
archive-books now k db one r =
    let due : Account → Type 0 =
      λ a. a.current_allocations ≡ occupancy a.id db.allocations + r.excess a.id in
    let known =
      All-both (λ a. a.id ≡ k → in_service k a ≡ true) due
        (λ a. (a.id ≡ k → in_service k a ≡ true) × due a) (λ a s o. (s, o)) db.accounts
        (serving k db.accounts r.books.distinct one) r.books.owed in
    record {
      distinct =
          Distinct-update (in_service k) (archive_row now) (λ a. refl) db.accounts r.books.distinct;
      owed =
          All-update (in_service k) (archive_row now)
            (λ a. (a.id ≡ k → in_service k a ≡ true) × due a)
            (λ a. a.current_allocations ≡ occupancy a.id db.allocations + 0) (λ a e q. vacated a e)
            (λ a e q. unchanged a e q.0 q.1) db.accounts known;
      within =
          All-update (in_service k) (archive_row now)
            (λ a. a.current_allocations ≤ a.max_concurrent_users)
            (λ a. a.current_allocations ≤ a.max_concurrent_users) (λ a e h. omega arith)
            (λ a e h. h) db.accounts r.books.within;
      ordered = r.books.ordered;
      one_primary = r.books.one_primary;
    }
  where
    vacated : (a : Account) → in_service k a ≡ true → 0 ≡ occupancy a.id db.allocations + 0
    vacated a e = let same : a.id ≡ k = ground arith in rw same (omega (arith, r.count))

    unchanged :
        (a : Account)
        → in_service k a ≡ false
        → (a.id ≡ k → in_service k a ≡ true)
        → a.current_allocations ≡ occupancy a.id db.allocations + r.excess a.id
        → a.current_allocations ≡ occupancy a.id db.allocations + 0
    unchanged a e served o =
        omega (arith, o, r.only a.id (λ same. absurd (false≢true (sym e ∙ served same))))

archive-facts :
    (now k : ℕ) (db : Db) {after : Db}
    → Round k [] db
    → archive_account now k db ≡ ok after
    → IsSound after × (occupancy k after.allocations ≡ 0)
unfolding archive_account
archive-facts now k db {after} r h =
    elim (Bool-cases (count_where (in_service k) db.accounts == 1)) [
      | inl e ↦
          (let one : count_where (in_service k) db.accounts ≡ 1 = ground arith in
            let sound =
              Books-same nothing
                (record db { accounts = update_where (in_service k) (archive_row now) db.accounts })
                _ refl refl refl (archive-books now k db one r) in
            subst (λ (q : Db). IsSound q × (occupancy k q.allocations ≡ 0))
              (ok-injective (rw e at h)) (sound, r.count))
      | inr e ↦ (let refused : ◌≡◌ {A = Result Db} (err no_rows) (ok after) = rw e at h in cc)
    ]

-- On a sound database whose allocations all have a card, the retirement of an account that succeeds
-- keeps the database sound, leaves the account without a seat, and reports as moved or closed as
-- many seats as the account had.
pub retire_account-Vacated :
    (now k : ℕ) (db : Db) {r : Db × Tally}
    → 0 < k
    → HasCards db.cards db.allocations
    → IsSound db
    → retire_account now k db ≡ ok r
    → IsSound r.0
      × (occupancy k r.0.allocations ≡ 0)
      × (r.1.replaced + r.1.closed ≡ occupancy k db.allocations)
unfolding retire_account
retire_account-Vacated now k db pos cards b h =
    let items = leaving k db.cards db.allocations in
    let start : Db × Tally = (db, record { replaced = 0; closed = 0 }) in
    let l = leaving-Listed k db.cards db.next_allocation db.allocations b.ordered cards in
    let first : Round k items db = record {
      excess = nothing;
      only = λ i _. refl;
      books = b;
      waits = l.waits;
      count = l.count;
    } in
    let (u, g, h1) = >>=-eq-ok (guard (exists_where (in_service k) db.accounts) no_rows) _ h in
    let (moved, m, h2) = >>=-eq-ok (retire_seats now k items start) _ h1 in
    let (archived, a, h3) = >>=-eq-ok (archive_account now k moved.0) _ h2 in
    let (round, total) = retire_seats-Round now k items start pos l.apart first m in
    let (sound, empty) = archive-facts now k moved.0 round a in
    subst
      (λ (q : Db × Tally).
        IsSound q.0
        × (occupancy k q.0.allocations ≡ 0)
        × (q.1.replaced + q.1.closed ≡ occupancy k db.allocations))
      (ok-injective h3) (sound, empty, omega (arith, total, l.count))
