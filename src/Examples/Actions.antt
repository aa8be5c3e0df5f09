-- ===== src/Examples/Actions.antt =====
-- Card actions, the retirement of an account and its administration.
use gptshare.Base.{ℕ, ◌==◌, ◌&&◌, ◌+◌, ◌*◌, ◌≡◌, refl, true, false, none, some, [], arith, All}
use gptshare.Time.{day, unix, datetime, julianday, text_key}
use gptshare.Pool.Types.{
  MonitorStatus, AccountStatus, CardStatus, Account, Card, Db, ok, err, card_action_conflict,
  value_or, ◌>>=◌,
}
use gptshare.Pool.Tables.{after, allocatable, occupies, occupancy, free_seats}
use gptshare.Pool.Candidate.{eligible, order_keys, lex_leb, first_by, select_card_candidate}
use gptshare.Pool.Seats.{
  card_time_after_days, update_one, reserve_account_capacity, insert_allocation,
}
use gptshare.Pool.Extend.{
  update_card, current_seat, renew_seat, ensure_renewed_account, extend_active, extend_redeemed,
  extend_card_with_tx,
}
use gptshare.Pool.CardAction.{
  Action, ActionMode, Outcome, Cards, replay, read_action_card, prior_operation, same_action,
  renew_card, run_action, fresh_action, decide_action, apply_card_action,
}
use gptshare.Pool.CardAction.Sound.{card_action-IsSound}
use gptshare.Pool.CardAction.Replay.{preview-apply}
use gptshare.Pool.CardAction.Again.{card_action-replays, card_action-spends}
use gptshare.Pool.Leave.{
  Tally, leaving, effective_primary, close_primary, log_retired, move_away, retire_seat,
  retire_seats, archive_account, retire_account,
}
use gptshare.Pool.Leave.Sound.{retire_account-Vacated}
use gptshare.Pool.Message.{default_account_capacity}
use gptshare.Pool.Admin.{apply_default_account_capacity, capacity_row, valid_account_expiry}
use gptshare.Pool.Admin.Capacity.{Labelled, apply_default-Labelled, apply_default-revives}
use gptshare.Pool.Admin.Update.{Update, Secret, update_account}
use gptshare.Pool.Admin.Sound.{Offered, update_account-Offered}
use gptshare.Pool.Books.Defs.{IsSound}
use gptshare.Examples.Shop.{noon, account, card, shop, shop-IsSound}

abbrev desk : Cards
desk = record { db = shop; next_group = 1; operations = [] }

abbrev no_outcome : Outcome
no_outcome = record {
  action = Action.renew;
  mode = ActionMode.different;
  card_id = 0;
  target_card_id = 0;
  source_card_id = 0;
  added_days = 0;
  duration_days = 0;
  status = CardStatus.unused;
  original_status = CardStatus.unused;
  before_expires_at = none;
  expires_at = none;
  account_changed = false;
  replayed = false;
}

-- Card 2 is renewed by the days of card 3.
abbrev renewed_desk : Cards × Outcome
renewed_desk =
    value_or (desk, no_outcome) (apply_card_action noon Action.renew 12 13 false true desk)

desk-renewed : apply_card_action noon Action.renew 12 13 false true desk ≡ ok renewed_desk
unfolding apply_card_action read_action_card prior_operation decide_action fresh_action run_action
    renew_card extend_card_with_tx extend_redeemed extend_active card_time_after_days unix
    update_card ensure_renewed_account renew_seat current_seat datetime
desk-renewed = refl

card_action-IsSound_example : IsSound renewed_desk.0.db
card_action-IsSound_example =
    card_action-IsSound noon Action.renew 12 13 false true desk shop-IsSound desk-renewed

preview-apply_example :
    apply_card_action noon Action.renew 12 13 true true desk
    ≡ (apply_card_action noon Action.renew 12 13 false true desk >>= λ r. ok (desk, r.1))
preview-apply_example = preview-apply noon Action.renew 12 13 true desk

card_action-replays_example :
    apply_card_action (noon + day) Action.renew 12 13 true false renewed_desk.0
    ≡ ok (renewed_desk.0, replay renewed_desk.1)
card_action-replays_example =
    card_action-replays noon (noon + day) Action.renew 12 13 true false true desk desk-renewed

abbrev first_card : Card
first_card = card 1 CardStatus.redeemed (some (120 * day))

renewed_facts :
    (read_action_card 11 renewed_desk.0.db ≡ ok first_card)
    × (renewed_desk.1.replayed ≡ false)
    × ((1 == renewed_desk.1.source_card_id) ≡ false)
    × (((renewed_desk.1.target_card_id == 1) && same_action Action.renew Action.renew) ≡ false)
unfolding apply_card_action read_action_card prior_operation decide_action fresh_action run_action
    renew_card extend_card_with_tx extend_redeemed extend_active card_time_after_days unix
    update_card ensure_renewed_account renew_seat current_seat datetime
renewed_facts = (refl, refl, refl, refl)

card_action-spends_example :
    apply_card_action (noon + day) Action.renew 11 13 false true renewed_desk.0
    ≡ err card_action_conflict
card_action-spends_example =
    card_action-spends noon (noon + day) Action.renew Action.renew 12 13 11 true true false desk
      first_card desk-renewed renewed_facts.1 refl renewed_facts.0 renewed_facts.2 renewed_facts.3

-- Account 2 is retired: its customer moves to account 3.
abbrev left_shop : Db × Tally
left_shop = value_or (shop, record { replaced = 0; closed = 0 }) (retire_account noon 2 shop)

shop-left : retire_account noon 2 shop ≡ ok left_shop
unfolding retire_account leaving occupies retire_seats retire_seat effective_primary move_away
    select_card_candidate first_by eligible order_keys lex_leb allocatable datetime julianday
    text_key close_primary reserve_account_capacity update_one insert_allocation log_retired
    archive_account
shop-left = refl

retire_account-Vacated_example :
    IsSound left_shop.0
    × (occupancy 2 left_shop.0.allocations ≡ 0)
    × (left_shop.1.replaced + left_shop.1.closed ≡ occupancy 2 shop.allocations)
retire_account-Vacated_example =
    retire_account-Vacated noon 2 shop (omega arith) (refl, (refl, tt)) shop-IsSound shop-left

abbrev wide_shop : Db × ℕ
wide_shop = value_or (shop, 0) (apply_default_account_capacity none shop)

shop-widened : apply_default_account_capacity none shop ≡ ok wide_shop
unfolding apply_default_account_capacity default_account_capacity
shop-widened = refl

apply_default-Labelled_example :
    (capacity : ℕ) × (default_account_capacity none ≡ ok capacity)
    × All (Labelled capacity) wide_shop.0.accounts
apply_default-Labelled_example = apply_default-Labelled none shop shop-widened

-- An account that was disabled with one seat held.
abbrev disabled_account : Account
disabled_account = account 5 1 MonitorStatus.alive AccountStatus.disabled

unexpired : after noon disabled_account.account_expiry ≡ true
unfolding datetime
unexpired = refl

apply_default-revives_example :
    (allocatable noon disabled_account ≡ false)
    × (allocatable noon (free_seats 1 (capacity_row 1 disabled_account)) ≡ true)
apply_default-revives_example =
    apply_default-revives 1 noon disabled_account refl refl (omega arith) refl refl unexpired

-- Account 3 is edited to one seat and a new password.
abbrev edit : Update
edit = record {
  username = 3;
  password = true;
  totp = false;
  source = Secret.unsent;
  pickup = Secret.blank;
  account_expiry = some (300 * day);
  max_concurrent_users = 1;
  status = none;
  monitor_status = some MonitorStatus.alive;
  monitor_account_id = some 43;
}

abbrev edited_shop : Db
edited_shop = value_or shop (update_account true noon 3 edit shop)

shop-edited : update_account true noon 3 edit shop ≡ ok edited_shop
unfolding update_account valid_account_expiry
shop-edited = refl

update_account-Offered_example : All (Offered 3) edited_shop.accounts
update_account-Offered_example = update_account-Offered true noon 3 edit shop shop-edited
