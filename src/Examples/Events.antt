-- ===== src/Examples/Events.antt =====
-- Account events and claims.
use gptshare.Base.{◌*◌, ◌≡◌, refl, true, none, some, [], arith}
use gptshare.Time.{day}
use gptshare.Pool.Types.{MonitorStatus, Db, ok, value_or}
use gptshare.Pool.Redeem.{consume_bind_nonce, insert_event, backfill_card_code}
use gptshare.Pool.Message.{Plan, EventType, Event, validate}
use gptshare.Pool.Events.{
  Disposition, Feed, Outcome, sync_account, untouched, apply_new, apply_unseen,
  apply_monitor_account_event,
}
use gptshare.Pool.Events.Sound.{Fresh, event-IsSound}
use gptshare.Pool.Claim.{Claim, take_over, claim_row, claim_card}
use gptshare.Pool.Claim.Owner.{OneOwner, claim-OneOwner, redeem-OneOwner}
use gptshare.Pool.Books.Defs.{IsSound}
use gptshare.Examples.Shop.{noon, shop, shop-IsSound, ticket}
use gptshare.Examples.Seats.{redeemed_shop, shop-redeemed}

abbrev pub feed : Feed
feed = record { db = shop; processed = [] }

-- Account 2 is reported as banned.
abbrev pub ban : Event
ban = record {
  event_id = record { value = 900; length = 32 };
  version = 5;
  type = EventType.dead_banned;
  occurred_at = some noon;
  provider_account_id = record { value = 42; length = 20 };
  email = record { value = 0; length = 0 };
  plan = Plan.plus;
  subscription_expiry = some (400 * day);
  status = MonitorStatus.dead_banned;
}

abbrev pub banned_feed : Feed × Outcome
banned_feed =
    value_or (feed, untouched Disposition.stale)
      (apply_monitor_account_event true none noon ban feed)

pub feed-banned : apply_monitor_account_event true none noon ban feed ≡ ok banned_feed
unfolding apply_monitor_account_event validate apply_unseen apply_new sync_account
feed-banned = refl

shop-Fresh : Fresh shop
shop-Fresh = record {
  accounts = (omega arith, (omega arith, (omega arith, tt)));
  allocations = (omega arith, (omega arith, tt));
}

event-IsSound_example : IsSound banned_feed.0.db
event-IsSound_example = event-IsSound true none noon ban feed shop-IsSound shop-Fresh feed-banned

abbrev late : Event
late = record ban { version = 3 }

abbrev late_feed : Feed × Outcome
late_feed =
    value_or (feed, untouched Disposition.duplicate)
      (apply_monitor_account_event true none noon late feed)

-- Card 2 has run since before there were users.
abbrev claimed_shop : Db × Claim
claimed_shop = value_or (shop, Claim.not_claimable) (claim_card noon true 12 (some ticket) shop)

shop-claimed : claim_card noon true 12 (some ticket) shop ≡ ok claimed_shop
unfolding claim_card claim_row take_over consume_bind_nonce insert_event backfill_card_code
shop-claimed = refl

shop-OneOwner : OneOwner shop
shop-OneOwner = record { keys = λ c. ground arith; one = λ c. ground arith }

claim-OneOwner_example : OneOwner claimed_shop.0
claim-OneOwner_example = claim-OneOwner noon true 12 (some ticket) shop shop-OneOwner shop-claimed

redeem-OneOwner_example : OneOwner redeemed_shop.0
redeem-OneOwner_example =
    redeem-OneOwner noon true true 13 (some ticket) shop shop-OneOwner shop-redeemed
