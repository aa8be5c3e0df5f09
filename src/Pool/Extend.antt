-- ===== src/Pool/Extend.antt =====
-- The extension of a card: extendCardWithTx of repository.go under the bounds of
-- ExtendCardWithMonitor, and ensureRenewedAccount of card_actions.go.
pub mod Keeps
pub mod Sound
pub mod Keys
use gptshare.Base.{
  ℕ, ◌+◌, ◌-◌, ◌/◌, Bool, true, false, not, ◌&&◌, ◌||◌, Option, none, some, List, leb, ltb, ◌==◌,
  if◌then◌else◌, update_where, count_where, find_where, is_none,
}
use gptshare.Time.{unix}
use gptshare.Pool.Types.{
  Account, AccountStatus, Card, CardStatus, Allocation, account_expired, Db, Result, ok, err,
  no_rows, card_state_conflict, card_duration_limit, no_account_capacity, ◌>>=◌, ◌>>◌, guard,
  or_fail,
}
use gptshare.Pool.Tables.{
  is_available, is_full, is_dead_banned, is_dead_normal, is_unused, is_redeemed, after, occupies,
}
use gptshare.Pool.Candidate.{find_account, find_card, select_card_candidate}
use gptshare.Pool.Seats.{
  card_time_after_days, reserve_account_capacity, insert_allocation, active_primary,
}
use gptshare.Pool.Sweep.{settle, expire_row}
use gptshare.Pool.Replace.{Due, replace_one_allocation}

pub data Mode : Type 0 where
  unused active reactivated : Mode

abbrev pub with_mode : Mode → Result Db → Result (Db × Mode)
with_mode mode m = m >>= λ next. ok (next, mode)

abbrev pub card_expired : CardStatus → Bool
card_expired CardStatus.expired = true
card_expired _ = false

abbrev pub is_closed : CardStatus → Bool
is_closed CardStatus.revoked = true
is_closed CardStatus.consumed = true
is_closed _ = false

-- The update of one card, which has to change one row.
unfoldable pub update_card : (Card → Bool) → (Card → Card) → Db → Result Db
update_card p f db =
    if count_where p db.cards == 1
    then ok (record db { cards = update_where p f db.cards })
    else err card_state_conflict

-- Reserve a seat of an account and insert the primary allocation that holds it.
unfoldable pub seat_card : ℕ → ℕ → ℕ → Option Account → Db → Result Db
seat_card card_id now expires candidate db = do
  next ← or_fail candidate no_account_capacity
  reserved ← reserve_account_capacity next.id now db
  inserted ← insert_allocation card_id next.id now expires reserved
  ok inserted.0

abbrev pub usable : ℕ → Account → Bool
usable now a =
    is_none a.archived_at
    && (is_available a.status || is_full a.status)
    && not (is_dead_banned a.monitor_status || is_dead_normal a.monitor_status)
    && after now a.account_expiry

-- The card's active primary row joined with its account.
unfoldable pub current_seat : ℕ → Db → Option (Allocation × Account)
current_seat card_id db = elim (find_where (active_primary card_id) db.allocations) [
  | none ↦ none
  | some l ↦ elim (find_account l.account_id db.accounts) [ none ↦ none | some a ↦ some (l, a) ]
]

unfoldable pub renew_seat : ℕ → ℕ → ℕ → Bool → Option (Allocation × Account) → Db → Result Db
renew_seat card_id expiry now monitor_available none db =
    seat_card card_id now expiry
      (select_card_candidate now expiry monitor_available 0 card_id true db) db
renew_seat card_id expiry now monitor_available (some (l, a)) db =
    let item : Due = record {
      allocation_id = l.id;
      card_id = card_id;
      old_account_id = l.account_id;
      card_expires_at = expiry;
      reason = account_expired;
    } in
    if usable now a then ok db else replace_one_allocation now item db >>= λ r. ok r.0

unfoldable pub ensure_renewed_account : ℕ → ℕ → ℕ → Bool → Db → Result Db
unfolding renew_seat current_seat
ensure_renewed_account card_id expiry now monitor_available db =
    renew_seat card_id expiry now monitor_available (current_seat card_id db) db

unfoldable pub extend_unused : ℕ → Card → ℕ → Db → Result Db
extend_unused now card days db = do
  card_time_after_days now (card.duration_days + days)
  update_card (λ c. c.id == card.id && is_unused c.status)
      (λ c. record c { duration_days = c.duration_days + days }) db

-- UPDATE allocations SET valid_until
abbrev pub prolong : ℕ → ℕ → Db → Db
prolong card_id until db = record db {
  allocations =
      update_where (active_primary card_id) (λ l. record l { valid_until = until }) db.allocations;
}

unfoldable pub extend_active : ℕ → Card → ℕ → ℕ → ℕ → Bool → Db → Result Db
extend_active now card redeemed_at expires_at days monitor_available db = do
  extended ← card_time_after_days expires_at days
  updated ←
      update_card (λ c. c.id == card.id && is_redeemed c.status)
        (λ c. record c {
          duration_days = (unix extended - unix redeemed_at) / 86400;
          expires_at = some extended;
        })
        db
  ensure_renewed_account card.id extended now monitor_available (prolong card.id extended updated)

abbrev pub card_seats : ℕ → Db → Allocation → Bool
card_seats card_id db l = l.card_id == card_id && occupies l

unfoldable pub reactivate : ℕ → Card → ℕ → Bool → Db → Result Db
reactivate now card days monitor_available db = do
  let closed = settle (card_seats card.id) expire_row db
  expires ← card_time_after_days now days
  seated ←
      seat_card card.id now expires
        (select_card_candidate now expires monitor_available 0 card.id true closed) closed
  update_card (λ c. c.id == card.id && (card_expired c.status || is_redeemed c.status))
      (λ c. record c {
        status = CardStatus.redeemed;
        duration_days = days;
        redeemed_at = some now;
        expires_at = some expires;
        revoked_at = none;
      })
      seated

-- The branches on a card that has been redeemed before.
unfoldable pub extend_redeemed : ℕ → Card → ℕ → Bool → Option ℕ → Option ℕ → Db → Result (Db × Mode)
extend_redeemed now card days monitor_available (some redeemed_at) (some expires_at) db =
    if ltb now expires_at && is_redeemed card.status
    then with_mode Mode.active
        (extend_active now card redeemed_at expires_at days monitor_available db)
    else with_mode Mode.reactivated (reactivate now card days monitor_available db)
extend_redeemed now card days monitor_available _ _ db = err card_state_conflict

unfoldable pub extend_card_with_tx : ℕ → ℕ → ℕ → Bool → Db → Result (Db × Mode)
extend_card_with_tx now card_id days monitor_available db = do
  card ← or_fail (find_card card_id db.cards) no_rows
  guard (not (is_closed card.status)) card_state_conflict
  if is_unused card.status
      then with_mode Mode.unused (extend_unused now card days db)
      else extend_redeemed now card days monitor_available card.redeemed_at card.expires_at db

-- ExtendCardWithMonitor
unfoldable pub extend_card : ℕ → ℕ → ℕ → Bool → Db → Result (Db × Mode)
unfolding extend_card_with_tx
extend_card now card_id days monitor_available db =
    if ltb days 1 || ltb 90 days
    then err card_duration_limit
    else extend_card_with_tx now card_id days monitor_available db
