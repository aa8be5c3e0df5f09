-- ===== src/Pool/Extend/Keeps.antt =====
-- The ledger under the single steps of extendCardWithTx and ensureRenewedAccount.
use gptshare.Base.{
  ℕ, ◌+◌, ◌<◌, ◌≡◌, refl, subst, Bool, Option, none, some, List, [], ◌∷◌, ◌==◌, All-map,
  update_where, count_where, count_where-update-le, find_where, arith, Bool-cases, Option-cases,
  inl, inr,
}
use mathlib.Core.Option.{some-injective}
use gptshare.Pool.Types.{
  Account, Card, Allocation, Db, Result, ok, err, no_account_capacity, card_state_conflict, or_fail,
  >>=-eq-ok, ok-injective,
}
use gptshare.Pool.Tables.{occupies, occupancy, can_reserve}
use gptshare.Pool.Candidate.{find_account}
use gptshare.Pool.Seats.{reserve_account_capacity, update_one, insert_allocation, active_primary}
use gptshare.Pool.Replace.{replace_one_allocation}
use gptshare.Pool.Extend.{
  update_card, seat_card, usable, current_seat, renew_seat, ensure_renewed_account, prolong,
}
use gptshare.Pool.Ledger.Rows.{Descending, Descending-update, Descending-below}
use gptshare.Pool.Ledger.Tracked.{Tracked, Tracked-insert, below-count}
use gptshare.Pool.Books.Defs.{IsSound, nothing, Books-same}
use gptshare.Pool.Books.Seats.{take, take-Books}
use gptshare.Pool.Books.Replace.{IsDue}
use gptshare.Pool.Books.Move.{replace_one-Books, can_reserve-id, can_reserve-room}

-- A call that succeeds leaves a sound database.
abbrev pub Keeps : Result Db → Type 0
Keeps m = (after : Db) → m ≡ ok after → IsSound after

pub update_card-Keeps :
    (p : Card → Bool) (f : Card → Card) (db : Db) → IsSound db → Keeps (update_card p f db)
unfolding update_card
update_card-Keeps p f db b after h = elim (Bool-cases (count_where p db.cards == 1)) [
  | inl e ↦
      subst IsSound (ok-injective (rw e at h))
        (Books-same nothing db (record db { cards = update_where p f db.cards }) refl refl refl b)
  | inr e ↦
      (let no_row : ◌≡◌ {A = Result Db} (err card_state_conflict) (ok after) = rw e at h in cc)
]

pub seat_card-Keeps :
    (card_id now expires : ℕ) (candidate : Option Account) (db : Db)
    → IsSound db
    → Keeps (seat_card card_id now expires candidate db)
unfolding seat_card reserve_account_capacity
seat_card-Keeps card_id now expires candidate db b after h =
    let (next, found, h1) = >>=-eq-ok (or_fail candidate no_account_capacity) _ h in
    let (reserved, seat, h2) = >>=-eq-ok (update_one (can_reserve next.id now) now db) _ h1 in
    let (inserted, row, h3) =
      >>=-eq-ok (insert_allocation card_id next.id now expires reserved) _ h2 in
    let both : take (can_reserve next.id now) card_id next.id now expires db ≡ ok inserted =
      rw seat row in
    subst IsSound (ok-injective h3) (
      take-Books (can_reserve next.id now) next.id now (can_reserve-id next.id now)
        (can_reserve-room next.id now) nothing card_id expires db b both)

-- The row that is found is the only one of its id.
found-Tracked :
    (c n : ℕ) (ls : List Allocation) (l : Allocation)
    → Descending n ls
    → find_where (active_primary c) ls ≡ some l
    → Tracked l.id (IsDue l.account_id) ls
found-Tracked c n [] l d h = cc
found-Tracked c n (x ∷ ls) l d h = elim (Bool-cases (active_primary c x)) [
  | inl e ↦
      (let same : x ≡ l = some-injective x l (rw e at h) in
        subst (λ r. Tracked r.id (IsDue r.account_id) (x ∷ ls)) same
          (record {
            row = (
              λ i. ground arith,
              All-map (λ r. r.id < x.id) (λ r. r.id ≡ x.id → IsDue x.account_id r)
                  (λ r h i. absurd (omega arith)) ls (Descending-below x.id ls d.1),
            );
            once = ground (arith, below-count x.id x.id ls d.1);
          }))
  | inr e ↦
      Tracked-insert l.id x.id (IsDue l.account_id) x ls d.1 refl
        (found-Tracked c x.id ls l d.1 (rw e at h))
]

occupancy-prolong :
    (card_id until i : ℕ) (ls : List Allocation)
    → occupancy i (update_where (active_primary card_id) (λ l. record l { valid_until = until }) ls)
      ≡ occupancy i ls
unfolding occupancy occupies
occupancy-prolong card_id until i [] = refl
occupancy-prolong card_id until i (l ∷ ls) = elim (Bool-cases (active_primary card_id l)) [
  | inl e ↦ rw (e, occupancy-prolong card_id until i ls)
  | inr e ↦ rw (e, occupancy-prolong card_id until i ls)
]

pub prolong-IsSound :
    (card_id until : ℕ) (db : Db) → IsSound db → IsSound (prolong card_id until db)
prolong-IsSound card_id until db b =
    let longer : Allocation → Allocation = λ l. record l { valid_until = until } in
    record {
      distinct = b.distinct;
      owed =
          All-map (λ a. a.current_allocations ≡ occupancy a.id db.allocations + 0) _
            (λ a o. rw (occupancy-prolong card_id until a.id db.allocations) o) db.accounts b.owed;
      within = b.within;
      ordered =
          Descending-update (active_primary card_id) longer (λ l. refl) db.next_allocation
            db.allocations b.ordered;
      one_primary = λ c. omega (
        arith,
        b.one_primary c,
        count_where-update-le (active_primary card_id) longer (active_primary c) (λ l e q. q)
            db.allocations,
      );
    }

renew_seat-Keeps :
    (card_id expiry now : ℕ) (m : Bool) (db : Db) (seat : Option (Allocation × Account))
    → ((l : Allocation) (a : Account)
        → seat ≡ some (l, a)
        → Tracked l.id (IsDue l.account_id) db.allocations)
    → IsSound db
    → Keeps (renew_seat card_id expiry now m seat db)
unfolding renew_seat
renew_seat-Keeps card_id expiry now m db none t b after h =
    seat_card-Keeps card_id now expiry _ db b after h
renew_seat-Keeps card_id expiry now m db (some (l, a)) t b after h =
    elim (Bool-cases (usable now a)) [
      | inl e ↦ subst IsSound (ok-injective (rw e at h)) b
      | inr e ↦
          (let (r, moved, h1) = >>=-eq-ok (replace_one_allocation now _ db) _ (rw e at h) in
            subst IsSound (ok-injective h1)
              (replace_one-Books nothing now _ db (t l a refl) b moved))
    ]

current_seat-Tracked :
    (card_id : ℕ) (db : Db)
    → IsSound db
    → (l : Allocation) (a : Account) → current_seat card_id db ≡ some (l, a)
    → Tracked l.id (IsDue l.account_id) db.allocations
unfolding current_seat
current_seat-Tracked card_id db b l a h =
    elim (Option-cases (find_where (active_primary card_id) db.allocations)) [
      | inl e ↦ absurd (ground arith)
      | inr (x, e) ↦ elim (Option-cases (find_account x.account_id db.accounts)) [
        | inl n ↦ absurd (ground arith)
        | inr (y, f) ↦
            (let same : some (x, y) ≡ some (l, a) = rw (e, f, current_seat) at h in
              subst
                (λ (q : Allocation × Account). Tracked q.0.id (IsDue q.0.account_id) db.allocations)
                (some-injective (x, y) (l, a) same)
                (found-Tracked card_id db.next_allocation db.allocations x b.ordered e))
      ]
    ]

pub ensure_renewed-Keeps :
    (card_id expiry now : ℕ) (m : Bool) (db : Db)
    → IsSound db
    → Keeps (ensure_renewed_account card_id expiry now m db)
unfolding ensure_renewed_account
ensure_renewed-Keeps card_id expiry now m db b =
    renew_seat-Keeps card_id expiry now m db (current_seat card_id db)
      (current_seat-Tracked card_id db b) b
