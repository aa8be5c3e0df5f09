-- ===== src/Examples/Moves.antt =====
-- Cards that move to another account, and what expires, is extended, claimed or revoked.
use gptshare.Base.{◌+◌, ◌*◌, ◌-◌, ◌≡◌, refl, true, none, some, [], ◌∷◌, arith, All, is_none}
use gptshare.Time.{day, unix, datetime, julianday, text_key}
use gptshare.Pool.Types.{
  MonitorStatus, AccountStatus, AllocationState, Reason, Replacement, Db, ok, value_or,
}
use gptshare.Pool.Tables.{allocatable, occupies, occupancy, release_account_capacity}
use gptshare.Pool.Candidate.{eligible, order_keys, lex_leb, first_by, select_card_candidate}
use gptshare.Pool.Seats.{
  card_time_after_days, update_one, reserve_account_capacity, insert_allocation,
}
use gptshare.Pool.Sweep.{supersede_card_grace_allocations}
use gptshare.Pool.Replace.{
  Due, replacement_keeps_grace, close_old, release_old, keep_grace, end_old, move_seat,
  replace_one_allocation,
}
use gptshare.Pool.Reconcile.{reconcile_allocation_counts}
use gptshare.Pool.Process.{process_replacements}
use gptshare.Pool.Revoke.{revoke_rows, revoke_card}
use gptshare.Pool.Revoke.Drift.{held, revoke-drift}
use gptshare.Pool.Reconcile.Restore.{reconcile-restores}
use gptshare.Pool.Extend.{
  Mode, update_card, current_seat, renew_seat, ensure_renewed_account, extend_active,
  extend_redeemed, extend_card_with_tx, extend_card,
}
use gptshare.Pool.Extend.Sound.{extend-IsSound}
use gptshare.Pool.Books.Defs.{IsSound}
use gptshare.Pool.Books.Placed.{Placed}
use gptshare.Pool.Books.Process.{process-IsSound}
use gptshare.Pool.Steps.{Step, Reach, Reach-IsSound}
use gptshare.Examples.Shop.{noon, account, seat, shop, shop-IsSound, ticket}
use gptshare.Examples.Seats.{redeemed_shop, shop-redeemed}

-- The banned account's customer, card 1.
abbrev item : Due
item = record {
  allocation_id = 1;
  card_id = 1;
  old_account_id = 1;
  card_expires_at = 120 * day;
  reason = Reason.banned;
}

abbrev no_move : Replacement
no_move = record {
  card_id = 0;
  old_account_id = 0;
  new_account_id = 0;
  reason = Reason.banned;
  replaced_at = 0;
  grace_until = none;
}

abbrev moved_shop : Db × Replacement
moved_shop = value_or (shop, no_move) (replace_one_allocation noon item shop)

process-IsSound_example : IsSound (process_replacements noon shop).0
process-IsSound_example = process-IsSound noon shop shop-IsSound

Reach-IsSound_example : IsSound (process_replacements (noon + day) redeemed_shop.0).0
Reach-IsSound_example = Reach-IsSound shop-IsSound (
    Reach.then_
      (Reach.then_ Reach.begin (Step.redeems noon true true 13 (some ticket) shop-redeemed))
      (Step.scans (noon + day)))

-- Card 1 is extended by ten days, and moves away from the banned account.
abbrev extended_shop : Db × Mode
extended_shop = value_or (shop, Mode.unused) (extend_card noon 1 10 true shop)

shop-extended : extend_card noon 1 10 true shop ≡ ok extended_shop
unfolding extend_card extend_card_with_tx extend_redeemed extend_active card_time_after_days unix
    update_card ensure_renewed_account renew_seat current_seat replace_one_allocation
    select_card_candidate first_by eligible order_keys lex_leb allocatable datetime julianday
    text_key move_seat close_old reserve_account_capacity update_one insert_allocation end_old
    replacement_keeps_grace keep_grace release_old release_account_capacity
    supersede_card_grace_allocations
shop-extended = refl

extend-IsSound_example : IsSound extended_shop.0
extend-IsSound_example = extend-IsSound noon 1 10 true shop shop-IsSound shop-extended

-- An account that stores too much.
abbrev drifted_shop : Db
drifted_shop = record shop { accounts = account 2 2 MonitorStatus.alive AccountStatus.full ∷ [] }

reconcile-restores_example :
    let after = (reconcile_allocation_counts drifted_shop).0 in
    All
      (λ a.
        is_none a.archived_at ≡ true
        → a.current_allocations ≡ occupancy a.id drifted_shop.allocations)
      after.accounts
    × (after.allocations ≡ drifted_shop.allocations)
reconcile-restores_example = reconcile-restores drifted_shop

-- Card 2 holds a primary seat and one in grace of the same account.
abbrev twice : Db
twice = record shop {
  accounts = account 2 2 MonitorStatus.alive AccountStatus.full ∷ [];
  allocations =
      seat 3 2 2
      ∷ record (seat 2 2 2) {
        allocation_state = AllocationState.grace;
        grace_until = some (101 * day);
      }
      ∷ [];
  next_allocation = 4;
}

twice-IsSound : IsSound twice
unfolding occupancy occupies
twice-IsSound = record {
  distinct = ground arith;
  owed = (refl, tt);
  within = (omega arith, tt);
  ordered = (omega arith, (omega arith, tt));
  one_primary = λ c. ground arith;
}

abbrev revoked_twice : Db
revoked_twice = value_or twice (revoke_card 2 noon twice)

twice-revoked : revoke_card 2 noon twice ≡ ok revoked_twice
unfolding revoke_card revoke_rows
twice-revoked = refl

-- The account keeps one seat that nobody holds.
revoke-drift_example :
    All
      (λ a.
        a.current_allocations
        ≡ occupancy a.id revoked_twice.allocations + (held 2 twice.allocations a.id - 1))
      revoked_twice.accounts
revoke-drift_example = revoke-drift 2 noon twice twice-IsSound refl twice-revoked
