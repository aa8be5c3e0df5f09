-- ===== src/Pool/Revoke/Drift.antt =====
-- The ledger after a revocation.
use gptshare.Base.{
  ℕ, ◌+◌, ◌-◌, ◌≡◌, refl, Bool, true, false, not, ◌&&◌, List, [], ◌∷◌, ◌==◌, if◌then◌else◌, All,
  All-update, update_where, count_where, exists_where, arith,
}
use gptshare.Pool.Types.{
  Account, Allocation, Db, ok, no_rows, card_state_conflict, or_fail, guard, >>=-eq-ok,
  ok-injective,
}
use gptshare.Pool.Tables.{occupies, occupancy, free_seats}
use gptshare.Pool.Candidate.{find_card}
use gptshare.Pool.Ledger.Rows.{Owed}
use gptshare.Pool.Books.Defs.{IsSound, nothing}
use gptshare.Pool.Revoke.{
  is_final, is_revoked, card_seat, revoke_row, was_revoked, revoke_rows, revoke_card,
}

-- The seats of an account that the card holds.
abbrev pub held : ℕ → List Allocation → ℕ → ℕ
held card_id ls k = count_where (λ l. l.account_id == k && card_seat card_id l) ls

abbrev pub earlier_revoked : ℕ → List Allocation → Bool
earlier_revoked card_id = exists_where (λ l. l.card_id == card_id && is_revoked l.allocation_state)

occupancy-revoke :
    (card_id k : ℕ) (ls : List Allocation)
    → occupancy k ls
      ≡ occupancy k (update_where (card_seat card_id) revoke_row ls) + held card_id ls k
unfolding occupancy occupies
occupancy-revoke card_id k [] = refl
occupancy-revoke card_id k (l ∷ ls) = ground (arith, occupancy-revoke card_id k ls)

-- An account is found by the subquery exactly when the card held a seat of it.
was_revoked-held :
    (card_id : ℕ) (a : Account) (ls : List Allocation)
    → earlier_revoked card_id ls ≡ false
    → was_revoked card_id (update_where (card_seat card_id) revoke_row ls) a
      ≡ (if held card_id ls a.id == 0 then false else true)
unfolding occupies
was_revoked-held card_id a [] h = refl
was_revoked-held card_id a (l ∷ ls) h = ground (arith, was_revoked-held card_id a ls)

revoked_rows :
    (card_id now : ℕ) (db : Db)
    → Owed nothing db.allocations db.accounts
    → earlier_revoked card_id db.allocations ≡ false
    → All
        (λ a.
          a.current_allocations
          ≡ occupancy a.id (revoke_rows card_id now db).allocations
            + (held card_id db.allocations a.id - 1))
        (revoke_rows card_id now db).accounts
unfolding revoke_rows
revoked_rows card_id now db o fresh =
    let rows = update_where (card_seat card_id) revoke_row db.allocations in
    All-update (was_revoked card_id rows) (free_seats 1)
      (λ a. a.current_allocations ≡ occupancy a.id db.allocations + 0)
      (λ a. a.current_allocations ≡ occupancy a.id rows + (held card_id db.allocations a.id - 1))
      (λ a e h. ground (
        arith,
        occupancy-revoke card_id a.id db.allocations,
        was_revoked-held card_id a db.allocations fresh,
      ))
      (λ a e h. ground (
        arith,
        occupancy-revoke card_id a.id db.allocations,
        was_revoked-held card_id a db.allocations fresh,
      ))
      db.accounts o

-- After the revocation of a card on a sound database, in which no allocation of the card was
-- revoked before, each account stores as many seats beyond those that are held as the card held of
-- it beyond the first: the statement takes one seat from each account, however many the card held.
pub revoke-drift :
    (card_id now : ℕ) (db : Db) {after : Db}
    → IsSound db
    → earlier_revoked card_id db.allocations ≡ false
    → revoke_card card_id now db ≡ ok after
    → All
        (λ a.
          a.current_allocations
          ≡ occupancy a.id after.allocations + (held card_id db.allocations a.id - 1))
        after.accounts
unfolding revoke_card
revoke-drift card_id now db b fresh h =
    let (card, found, h1) = >>=-eq-ok (or_fail (find_card card_id db.cards) no_rows) _ h in
    let (u, open_card, h2) =
      >>=-eq-ok (guard (not (is_final card.status)) card_state_conflict) _ h1 in
    rw (← ok-injective h2) (revoked_rows card_id now db b.owed fresh)
