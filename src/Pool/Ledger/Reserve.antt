-- ===== src/Pool/Ledger/Reserve.antt =====
-- The ledger under reserveAccountCapacity and the insertion of an allocation.
use gptshare.Base.{
  ℕ, ◌+◌, ◌≤◌, ◌<◌, ◌≡◌, refl, ◌≢◌, Bool, true, List, [], ◌∷◌, ◌==◌, if◌then◌else◌, All, All-update,
  update_where, count_where, arith, Bool-cases, inl, inr,
}
use gptshare.Pool.Types.{Account, Allocation}
use gptshare.Pool.Tables.{occupies, occupancy, take_seat}
use gptshare.Pool.Ledger.Rows.{Owed, Distinct, Within, Distinct-update}

module _ (p : Account → Bool) (k now : ℕ) (only : (a : Account) → p a ≡ true → a.id ≡ k) where
  none_taken :
      (rows : List Account)
      → All (λ b. b.id ≢ k) rows
      → (update_where p (take_seat now) rows ≡ rows) × (count_where p rows ≡ 0)
  none_taken [] h = (refl, refl)
  none_taken (a ∷ rows) h = elim (Bool-cases (p a)) [
    | inl e ↦ absurd (h.0 (only a e))
    | inr e ↦
        let (same, zero_rows) = none_taken rows h.1 in
        (rw (e, same), rw e (omega (arith, zero_rows)))
  ]

  -- The row that is updated stands among the rows counted.
  unmatched :
      (a : Account) (rows : List Account)
      → All (λ b. b.id ≢ a.id) rows
      → count_where p rows ≡ 1
      → a.id ≢ k
  unmatched a rows h one e =
      let none_here = none_taken rows (rw (← e) h) in omega (arith, none_here.1)

  module _ (l : Allocation) (mine : l.account_id ≡ k) (held : occupies l ≡ true) where
    occupancy-insert :
        (i : ℕ) (ls : List Allocation)
        → occupancy i (l ∷ ls) ≡ (if k == i then 1 else 0) + occupancy i ls
    unfolding occupancy
    occupancy-insert i ls = ground (arith, mine, held)

    Owed-others :
        (excess : ℕ → ℕ) (ls : List Allocation) (rows : List Account)
        → All (λ b. b.id ≢ k) rows
        → Owed excess ls rows
        → Owed excess (l ∷ ls) rows
    Owed-others excess ls [] h o = tt
    Owed-others excess ls (a ∷ rows) h o =
        (ground (arith, occupancy-insert a.id ls, h.0), Owed-others excess ls rows h.1 o.1)

    pub reserve-Owed :
        (excess : ℕ → ℕ) (ls : List Allocation) (rows : List Account)
        → Distinct rows
        → count_where p rows ≡ 1
        → Owed excess ls rows
        → Owed excess (l ∷ ls) (update_where p (take_seat now) rows)
    reserve-Owed excess ls [] d one o = tt
    reserve-Owed excess ls (a ∷ rows) d one o = elim (Bool-cases (p a)) [
      | inl e ↦
          let others : All (λ b. b.id ≢ k) rows = rw (← only a e) d.0 in
          rw (e, (none_taken rows others).0)
            (
              ground (arith, occupancy-insert a.id ls, only a e),
              Owed-others excess ls rows others o.1,
            )
      | inr e ↦
          let later : count_where p rows ≡ 1 = ground arith in
          let apart : a.id ≢ k = unmatched a rows d.0 later in
          rw e (ground (arith, occupancy-insert a.id ls), reserve-Owed excess ls rows d.1 later o.1)
    ]

  pub reserve-Distinct :
      (rows : List Account) → Distinct rows → Distinct (update_where p (take_seat now) rows)
  reserve-Distinct = Distinct-update p (take_seat now) (λ a. refl)

  pub reserve-Within :
      ((a : Account) → p a ≡ true → a.current_allocations < a.max_concurrent_users)
      → (rows : List Account) → Within rows
      → Within (update_where p (take_seat now) rows)
  reserve-Within room =
      All-update p (take_seat now) (λ a. a.current_allocations ≤ a.max_concurrent_users)
        (λ a. a.current_allocations ≤ a.max_concurrent_users) (λ a e h. omega (arith, room a e))
        (λ a e h. h)
