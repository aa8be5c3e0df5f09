-- ===== src/Pool/Seats.antt =====
-- Statements that give a card a seat: reserveAccountCapacity, the insertion of a primary allocation
-- under the unique index allocations_active_primary_card_uq, and cardTimeAfterDays.
use gptshare.Base.{
  ℕ, suc, ◌+◌, ◌-◌, ◌*◌, ◌/◌, Bool, true, ◌&&◌, ◌||◌, none, ◌∷◌, ltb, ◌==◌, if◌then◌else◌,
  update_where, count_where, exists_where,
}
use gptshare.Time.{unix, day}
use gptshare.Pool.Types.{
  Account, Allocation, AllocationState, Db, Result, ok, err, no_account_capacity,
  card_duration_limit, unique_violation,
}
use gptshare.Pool.Tables.{is_primary, can_reserve, take_seat}

-- 9999-12-31T00:00:00Z
abbrev pub last_unix : ℕ
last_unix = 253402214400

-- A quotient of a negative difference is no more than 0, and days are at least 1.
unfoldable pub card_time_after_days : ℕ → ℕ → Result ℕ
card_time_after_days base days =
    if ltb days 1 || ltb ((last_unix - unix base) / 86400) days
    then err card_duration_limit
    else ok (base + days * day)

-- An update that has to change exactly one row.
unfoldable pub update_one : (Account → Bool) → ℕ → Db → Result Db
update_one p now db =
    if count_where p db.accounts == 1
    then ok (record db { accounts = update_where p (take_seat now) db.accounts })
    else err no_account_capacity

unfoldable pub reserve_account_capacity : ℕ → ℕ → Db → Result Db
reserve_account_capacity account_id now = update_one (can_reserve account_id now) now

abbrev pub new_allocation : ℕ → ℕ → ℕ → ℕ → ℕ → Allocation
new_allocation id card_id account_id now valid_until = record {
  id = id;
  card_id = card_id;
  account_id = account_id;
  allocated_at = now;
  valid_until = valid_until;
  grace_until = none;
  replaced_at = none;
  replacement_reason = none;
  allocation_state = AllocationState.primary;
  active = true;
  superseded_by = none;
}

abbrev pub active_primary : ℕ → Allocation → Bool
active_primary card_id l = l.card_id == card_id && l.active && is_primary l.allocation_state

-- INSERT INTO allocations, and LastInsertId.
unfoldable pub insert_allocation : ℕ → ℕ → ℕ → ℕ → Db → Result (Db × ℕ)
insert_allocation card_id account_id now valid_until db =
    if exists_where (active_primary card_id) db.allocations
    then err unique_violation
    else ok (
      record db {
        allocations =
            new_allocation db.next_allocation card_id account_id now valid_until ∷ db.allocations;
        next_allocation = suc db.next_allocation;
      },
      db.next_allocation,
    )
