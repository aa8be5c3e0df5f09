-- ===== src/Pool/Sweep.antt =====
-- Allocations whose time is over: expireDueCards, expireGraceAllocations and the calls of
-- closeGraceAllocations. Each counts the rows by account, releases the accounts' capacity and then
-- closes the rows.
use gptshare.Base.{
  ℕ, Bool, true, false, not, ◌&&◌, some, List, [], ◌∷◌, ◌==◌, if◌then◌else◌, where_rows,
  update_where, count_where, exists_where, is_none,
}
use gptshare.Pool.Types.{
  Card, CardStatus, Allocation, AllocationState, Reason, account_expired, grace_expired,
  grace_superseded, Db,
}
use gptshare.Pool.Tables.{
  is_redeemed, is_grace, some_due, occupies, banned_account, expired_account, group_by_account,
  release_all,
}

-- Release and close the rows that `p` selects; `p` is read again after the release.
unfoldable pub settle : (Db → Allocation → Bool) → (Allocation → Allocation) → Db → Db
settle p close db =
    let released = record db {
      accounts = release_all (group_by_account (where_rows (p db) db.allocations)) db.accounts;
    } in
    record released { allocations = update_where (p released) close released.allocations }

abbrev pub is_empty {ℓ} : {A : Type ℓ} → List A → Bool
is_empty [] = true
is_empty (x ∷ xs) = false

abbrev pub card_due : ℕ → Card → Bool
card_due now c = is_redeemed c.status && some_due now c.expires_at

-- The allocation's card is due, and the allocation holds a seat.
abbrev pub due_allocation : ℕ → Db → Allocation → Bool
due_allocation now db l =
    exists_where (λ c. c.id == l.card_id && card_due now c) db.cards && occupies l

abbrev pub expire_row : Allocation → Allocation
expire_row l = record l { allocation_state = AllocationState.expired; active = false }

unfoldable pub expire_due_cards : ℕ → Db → Db × ℕ
expire_due_cards now db =
    let settled = settle (due_allocation now) expire_row db in
    (
      record settled {
        cards =
            update_where (card_due now) (λ c. record c { status = CardStatus.expired })
              settled.cards;
      },
      count_where (card_due now) settled.cards,
    )

abbrev pub replace_row : ℕ → Reason → Allocation → Allocation
replace_row now reason l = record l {
  allocation_state = AllocationState.replaced;
  active = false;
  replaced_at = some now;
  replacement_reason = some reason;
}

abbrev pub active_grace : Allocation → Bool
active_grace l = l.active && is_grace l.allocation_state

abbrev pub grace_over : ℕ → Db → Allocation → Bool
grace_over now db l = active_grace l && some_due now l.grace_until

unfoldable pub expire_grace_allocations : ℕ → Db → Db × ℕ
expire_grace_allocations now db = (
  settle (grace_over now) (replace_row now grace_expired) db,
  count_where (grace_over now db) db.allocations,
)

-- With no row to close nothing is changed.
unfoldable pub close_grace_allocations : ℕ → Reason → (Db → Allocation → Bool) → Db → Db
close_grace_allocations now reason p db =
    if is_empty (group_by_account (where_rows (p db) db.allocations))
    then db
    else settle p (replace_row now reason) db

abbrev pub card_grace : ℕ → Db → Allocation → Bool
card_grace card_id db l = l.card_id == card_id && active_grace l

unfoldable pub supersede_card_grace_allocations : ℕ → ℕ → Db → Db
supersede_card_grace_allocations card_id now =
    close_grace_allocations now grace_superseded (card_grace card_id)

abbrev pub banned_grace : Db → Allocation → Bool
banned_grace db l =
    active_grace l && exists_where (λ a. a.id == l.account_id && banned_account a) db.accounts

unfoldable pub close_banned_grace_allocations : ℕ → Db → Db
close_banned_grace_allocations now = close_grace_allocations now Reason.banned banned_grace

abbrev pub lapsed_grace : ℕ → Db → Allocation → Bool
lapsed_grace now db l =
    active_grace l
    && exists_where
        (λ a.
          a.id == l.account_id
          && is_none a.archived_at
          && expired_account now a
          && not (banned_account a))
        db.accounts

unfoldable pub close_expired_grace_allocations : ℕ → Db → Db × ℕ
close_expired_grace_allocations now db = (
  close_grace_allocations now account_expired (lapsed_grace now) db,
  count_where (lapsed_grace now db) db.allocations,
)
