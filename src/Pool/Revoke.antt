-- ===== src/Pool/Revoke.antt =====
-- RevokeCard of repository.go.
pub mod Drift
use gptshare.Base.{
  ℕ, Bool, true, false, not, ◌&&◌, Option, some, List, ◌==◌, update_where, exists_where,
}
use gptshare.Pool.Types.{
  Account, Card, CardStatus, Allocation, AllocationState, Db, Result, ok, err, no_rows,
  card_state_conflict, ◌>>=◌, ◌>>◌, guard, or_fail,
}
use gptshare.Pool.Tables.{occupies, free_seats}
use gptshare.Pool.Candidate.{find_card}

abbrev pub is_final : CardStatus → Bool
is_final CardStatus.revoked = true
is_final CardStatus.expired = true
is_final CardStatus.consumed = true
is_final _ = false

abbrev pub is_revoked : AllocationState → Bool
is_revoked AllocationState.revoked = true
is_revoked _ = false

abbrev pub card_seat : ℕ → Allocation → Bool
card_seat card_id l = l.card_id == card_id && occupies l

abbrev pub revoke_row : Allocation → Allocation
revoke_row l = record l { allocation_state = AllocationState.revoked; active = false }

-- id IN (SELECT account_id FROM allocations WHERE card_id=? AND allocation_state='revoked')
abbrev pub was_revoked : ℕ → List Allocation → Account → Bool
was_revoked card_id ls a =
    exists_where
      (λ l. l.account_id == a.id && (l.card_id == card_id && is_revoked l.allocation_state)) ls

-- Each account of the card loses one seat.
unfoldable pub revoke_rows : ℕ → ℕ → Db → Db
revoke_rows card_id now db =
    let allocations = update_where (card_seat card_id) revoke_row db.allocations in
    record db {
      allocations = allocations;
      accounts = update_where (was_revoked card_id allocations) (free_seats 1) db.accounts;
      cards =
          update_where (λ c. c.id == card_id)
            (λ c. record c { status = CardStatus.revoked; revoked_at = some now }) db.cards;
    }

unfoldable pub revoke_card : ℕ → ℕ → Db → Result Db
revoke_card card_id now db = do
  card ← or_fail (find_card card_id db.cards) no_rows
  guard (not (is_final card.status)) card_state_conflict
  ok (revoke_rows card_id now db)
