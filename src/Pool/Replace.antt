-- ===== src/Pool/Replace.antt =====
-- The move of one card to another account: replaceOneAllocation and replaceOneAllocationIsolated.
use gptshare.Base.{
  ℕ, ◌+◌, Bool, true, false, not, ◌&&◌, Option, none, some, ◌∷◌, ◌==◌, if◌then◌else◌, update_where,
}
use gptshare.Time.{day}
use gptshare.Pool.Types.{
  Account, Allocation, AllocationState, Reason, Replacement, replacement_completed,
  replacement_failed, Db, Result, ok, err, no_account_capacity, ◌>>=◌, or_fail,
}
use gptshare.Pool.Tables.{is_primary, is_replaced, release_account_capacity}
use gptshare.Pool.Candidate.{select_card_candidate}
use gptshare.Pool.Seats.{reserve_account_capacity, insert_allocation}
use gptshare.Pool.Sweep.{replace_row, supersede_card_grace_allocations}

-- replacementDueAllocation
pub record Due : Type 0 where
  pub allocation_id : ℕ
  pub card_id : ℕ
  pub old_account_id : ℕ
  pub card_expires_at : ℕ
  pub reason : Reason

unfoldable pub replacement_keeps_grace : Reason → Bool
replacement_keeps_grace Reason.banned = false
replacement_keeps_grace Reason.account_expired = false
replacement_keeps_grace _ = true

abbrev pub due_row : Due → Allocation → Bool
due_row item l = l.id == item.allocation_id && l.active && is_primary l.allocation_state

abbrev pub grace_row : ℕ → Reason → ℕ → Allocation → Allocation
grace_row now reason new_id l = record l {
  allocation_state = AllocationState.grace;
  active = true;
  replaced_at = none;
  grace_until = some (now + day);
  replacement_reason = some reason;
  superseded_by = some new_id;
}

abbrev pub closed_row : Due → Allocation → Bool
closed_row item l = l.id == item.allocation_id && not l.active && is_replaced l.allocation_state

-- Both ends of the old allocation: its seat is given back, or it stays for a day of grace.
unfoldable pub release_old : Due → Db → Db
release_old item db = record db {
  accounts = release_account_capacity item.old_account_id 1 db.accounts;
}

unfoldable pub keep_grace : ℕ → Due → ℕ → Db → Db
keep_grace now item new_id db =
    let superseded = supersede_card_grace_allocations item.card_id now db in
    record superseded {
      allocations =
          update_where (closed_row item) (grace_row now item.reason new_id) superseded.allocations;
    }

-- The update of the old allocation.
unfoldable pub close_old : ℕ → Due → Db → Db
close_old now item db = record db {
  allocations = update_where (due_row item) (replace_row now item.reason) db.allocations;
}

-- The old row is closed, and the card gets a seat of the new account.
unfoldable pub move_seat : ℕ → Due → Account → Db → Result (Db × ℕ)
move_seat now item next db = do
  reserved ← reserve_account_capacity next.id now (close_old now item db)
  insert_allocation item.card_id next.id now item.card_expires_at reserved

-- The old allocation's end by the reason, where the new one has the id `new_id`.
unfoldable pub end_old : ℕ → Due → ℕ → Db → Db
end_old now item new_id db =
    if replacement_keeps_grace item.reason
    then keep_grace now item new_id db
    else release_old item db

abbrev pub entry_of : ℕ → Due → ℕ → Replacement
entry_of now item next_id = record {
  card_id = item.card_id;
  old_account_id = item.old_account_id;
  new_account_id = next_id;
  reason = item.reason;
  replaced_at = now;
  grace_until = if replacement_keeps_grace item.reason then some (now + day) else none;
}

-- The rows of replacement_history and audit_events.
abbrev pub log_move : Due → Replacement → Db → Db
log_move item entry db = record db {
  history = entry ∷ db.history;
  audits = replacement_completed item.card_id ∷ db.audits;
}

unfoldable pub replace_one_allocation : ℕ → Due → Db → Result (Db × Replacement)
replace_one_allocation now item db = do
  next ←
      or_fail
        (select_card_candidate now item.card_expires_at true item.old_account_id item.card_id false
          db)
        no_account_capacity
  seated ← move_seat now item next db
  ok (
    log_move item (entry_of now item next.id) (end_old now item seated.1 seated.0),
    entry_of now item next.id,
  )

-- ROLLBACK TO SAVEPOINT: a failure leaves the database as it was before the item, and is audited by
-- the caller.
pub record Moved : Type 0 where
  pub db : Db
  pub done : Option Replacement

unfoldable pub settle_isolated : Due → Db → Result (Db × Replacement) → Moved
settle_isolated item db (ok r) = record { db = r.0; done = some r.1 }
settle_isolated item db (err e) = record {
  db = record db { audits = replacement_failed item.card_id ∷ db.audits };
  done = none;
}

unfoldable pub replace_one_allocation_isolated : ℕ → Due → Db → Moved
replace_one_allocation_isolated now item db =
    settle_isolated item db (replace_one_allocation now item db)
