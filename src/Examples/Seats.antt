-- ===== src/Examples/Seats.antt =====
-- Seats that are given, moved and renewed.
use gptshare.Base.{◌+◌, ◌≡◌, refl, true, false, none, some, [], ◌∷◌}
use gptshare.Time.{day, unix, datetime, julianday, text_key}
use gptshare.Pool.Types.{
  MonitorStatus, AccountStatus, CardStatus, Binding, Allocation, Db, ok, value_or,
}
use gptshare.Pool.Tables.{allocatable, after}
use gptshare.Pool.Candidate.{eligible, order_keys, lex_leb, first_by, select_card_candidate}
use gptshare.Pool.Seats.{card_time_after_days, update_one, insert_allocation}
use gptshare.Pool.Redeem.{
  consume_bind_nonce, insert_event, backfill_card_code, mark_redeemed, give_seat, redeem_card,
}
use gptshare.Pool.Redeem.Once.{Outcome, redeem-Outcome}
use gptshare.Pool.Redeem.Code.{Bind, read_all, shown_rows, redeem_code}
use gptshare.Pool.Redeem.Code.Again.{redeem_code-again}
use gptshare.Pool.Claim.{Claim}
use gptshare.Base.{◌≢◌, ◌*◌}
use gptshare.Pool.Redeem.Nonce.{redeem_nonce_once}
use gptshare.Pool.Candidate.Chosen.{Choice, select-Choice}
use gptshare.Examples.Shop.{noon, account, card, seat, shop, ticket}

abbrev pub redeemed_shop : Db × Allocation
redeemed_shop = value_or (shop, seat 0 0 0) (redeem_card noon true true 13 (some ticket) shop)

pub shop-redeemed : redeem_card noon true true 13 (some ticket) shop ≡ ok redeemed_shop
unfolding redeem_card consume_bind_nonce card_time_after_days unix select_card_candidate first_by
    eligible order_keys lex_leb allocatable datetime julianday text_key give_seat update_one
    insert_allocation mark_redeemed backfill_card_code insert_event
shop-redeemed = refl

redeem-Outcome_example : Outcome noon 13 shop redeemed_shop
redeem-Outcome_example = redeem-Outcome noon true true 13 (some ticket) shop shop-redeemed

-- The same code is entered a day later, with another ticket; and on a database where its card is over.
abbrev second_ticket : Binding
second_ticket = record ticket { nonce = 78 }

abbrev over_shop : Db
over_shop = record shop { cards = card 3 CardStatus.expired (some (120 * day)) ∷ [] }

given_late : after (noon + day) redeemed_shop.1.valid_until ≡ true
unfolding datetime redeem_card consume_bind_nonce card_time_after_days unix select_card_candidate
    first_by allocatable lex_leb give_seat update_one insert_allocation mark_redeemed
given_late = refl

given_readable :
    read_all true
      (λ k. true)
      redeemed_shop.0.accounts
      (shown_rows (noon + day) redeemed_shop.1.card_id redeemed_shop.0.allocations)
    ≡ ok tt
unfolding datetime redeem_card consume_bind_nonce card_time_after_days unix select_card_candidate
    first_by allocatable lex_leb give_seat update_one insert_allocation mark_redeemed
    backfill_card_code insert_event
given_readable = refl

redeem_code-again_example :
    (redeem_code true (λ k. true) noon true 13 (some ticket) shop
      ≡ (redeemed_shop.0, ok (record { allocation = redeemed_shop.1; bind = Bind.new })))
    × (redeem_code true (λ k. true) (noon + day) true 13 (some second_ticket) redeemed_shop.0 ≡ (
      redeemed_shop.0,
      ok (record { allocation = redeemed_shop.1; bind = Bind.claim Claim.already_bound }),
    ))
    × ((redeem_code true (λ k. true) (noon + day) true 13 (some second_ticket) over_shop).0.accounts
        ≡ over_shop.accounts)
    × ((redeem_code true
          (λ k. true)
          (noon + day)
          true
          13
          (some second_ticket)
          over_shop).0.allocations
        ≡ over_shop.allocations)
redeem_code-again_example =
    redeem_code-again true (λ k. true) noon true 13 (some ticket) shop true (λ k. true) (noon + day)
      true (some second_ticket) over_shop (card 3 CardStatus.expired (some (120 * day)))
      shop-redeemed given_late given_readable refl refl refl

redeem_nonce_once_example :
    redeem_card (noon + day) true true 14 (some ticket) redeemed_shop.0 ≢ ok redeemed_shop
redeem_nonce_once_example =
    redeem_nonce_once noon true true 13 ticket shop (noon + day) true true 14 ticket redeemed_shop
      shop-redeemed refl

chosen :
    select_card_candidate noon (120 * day) true 0 3 false shop
    ≡ some (account 2 1 MonitorStatus.alive AccountStatus.available)
unfolding select_card_candidate first_by eligible order_keys lex_leb allocatable datetime julianday
    text_key
chosen = refl

abbrev shut : Db
shut = record shop { accounts = account 1 0 MonitorStatus.dead_banned AccountStatus.available ∷ [] }

nobody_chosen : select_card_candidate noon (120 * day) true 0 3 false shut ≡ none
unfolding select_card_candidate first_by eligible order_keys lex_leb allocatable datetime julianday
    text_key
nobody_chosen = refl

select-Choice_example :
    Choice noon
      (120 * day)
      true
      0
      3
      false
      shop
      (select_card_candidate noon (120 * day) true 0 3 false shop)
select-Choice_example = select-Choice noon (120 * day) true 0 3 false shop
