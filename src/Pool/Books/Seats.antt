-- ===== src/Pool/Books/Seats.antt =====
-- A seat that is taken for a new primary allocation.
use gptshare.Base.{
  ℕ, suc, ◌≤◌, ◌<◌, ◌≡◌, refl, Bool, true, false, List, [], ◌∷◌, ◌==◌, count_where, exists_where,
  update_where, arith, Bool-cases, inl, inr,
}
use gptshare.Pool.Types.{Account, Allocation, Db, ok, Result, ◌>>=◌}
use gptshare.Pool.Tables.{take_seat, occupies}
use gptshare.Pool.Seats.{update_one, insert_allocation, new_allocation, active_primary}
use gptshare.Pool.Ledger.Reserve.{reserve-Owed, reserve-Distinct, reserve-Within}
use gptshare.Pool.Books.Defs.{Books}

none_counted :
    (c : ℕ) (ls : List Allocation)
    → exists_where (active_primary c) ls ≡ false
    → count_where (active_primary c) ls ≡ 0
none_counted c [] h = refl
none_counted c (l ∷ ls) h = ground (arith, none_counted c ls)

one_primary-insert :
    (id card_id account_id now valid c : ℕ) (ls : List Allocation)
    → exists_where (active_primary card_id) ls ≡ false
    → count_where (active_primary c) ls ≤ 1
    → count_where (active_primary c) (new_allocation id card_id account_id now valid ∷ ls) ≤ 1
one_primary-insert id card_id account_id now valid c ls h one = elim (Bool-cases (card_id == c)) [
  | inl e ↦ ground (arith, none_counted card_id ls h)
  | inr e ↦ ground arith
]

-- The two statements together.
abbrev pub take : (Account → Bool) → ℕ → ℕ → ℕ → ℕ → Db → Result (Db × ℕ)
take p card_id account_id now valid db =
    update_one p now db >>= λ seated. insert_allocation card_id account_id now valid seated

abbrev pub taken : (Account → Bool) → ℕ → ℕ → ℕ → ℕ → Db → Db
taken p card_id account_id now valid db = record db {
  accounts = update_where p (take_seat now) db.accounts;
  allocations = new_allocation db.next_allocation card_id account_id now valid ∷ db.allocations;
  next_allocation = suc db.next_allocation;
}

-- When both statements succeed, one account was updated and the card had no active primary row.
pub take-eq :
    (p : Account → Bool) (card_id account_id now valid : ℕ) (db : Db) {r : Db × ℕ}
    → take p card_id account_id now valid db ≡ ok r
    → (count_where p db.accounts ≡ 1)
      × (exists_where (active_primary card_id) db.allocations ≡ false)
      × (r ≡ (taken p card_id account_id now valid db, db.next_allocation))
unfolding update_one insert_allocation
take-eq p card_id account_id now valid db h = ground arith

module _ (p : Account → Bool) (k now : ℕ) (only : (a : Account) → p a ≡ true → a.id ≡ k)
    (room : (a : Account) → p a ≡ true → a.current_allocations < a.max_concurrent_users) where
  pub taken-Books :
      (excess : ℕ → ℕ) (card_id valid : ℕ) (db : Db)
      → count_where p db.accounts ≡ 1
      → exists_where (active_primary card_id) db.allocations ≡ false
      → Books excess db
      → Books excess (taken p card_id k now valid db)
  unfolding occupies
  taken-Books excess card_id valid db one fresh b = record {
    distinct = reserve-Distinct p k now only db.accounts b.distinct;
    owed =
        reserve-Owed p k now only (new_allocation db.next_allocation card_id k now valid) refl refl
          excess db.allocations db.accounts b.distinct one b.owed;
    within = reserve-Within p k now only room db.accounts b.within;
    ordered = (omega arith, b.ordered);
    one_primary = λ c.
        one_primary-insert db.next_allocation card_id k now valid c db.allocations fresh
          (b.one_primary c);
  }

  pub take-Books :
      (excess : ℕ → ℕ) (card_id valid : ℕ) (db : Db) {r : Db × ℕ}
      → Books excess db
      → take p card_id k now valid db ≡ ok r
      → Books excess r.0
  take-Books excess card_id valid db b h =
      let (one, fresh, e) = take-eq p card_id k now valid db h in
      rw e (taken-Books excess card_id valid db one fresh b)
