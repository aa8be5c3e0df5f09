-- ===== src/Examples/Shop.antt =====
-- A small account pool: three accounts, one of them banned, and four cards.
use gptshare.Base.{ℕ, ◌+◌, ◌*◌, refl, true, false, Option, none, some, [], ◌∷◌, arith}
use gptshare.Time.{day}
use gptshare.Pool.Types.{
  MonitorStatus, AccountStatus, CardStatus, AllocationState, Account, Card, Allocation, Binding, Db,
}
use gptshare.Pool.Tables.{occupies, occupancy}
use gptshare.Pool.Books.Defs.{IsSound}

-- Noon of the hundredth day.
abbrev pub noon : ℕ
noon = 100 * day + 43200000000000

abbrev pub account : ℕ → ℕ → MonitorStatus → AccountStatus → Account
account id used monitor_status status = record {
  id = id;
  username = id;
  account_expiry = 400 * day;
  max_concurrent_users = 2;
  current_allocations = used;
  monitor_account_id = some (40 + id);
  monitor_status = monitor_status;
  status = status;
  last_allocated_at = none;
  archived_at = none;
  sync_version = 4;
  has_password = true;
  has_totp = true;
  has_pickup = false;
}

abbrev pub card : ℕ → CardStatus → Option ℕ → Card
card id status expires_at = record {
  id = id;
  code_hash = 10 + id;
  group_id = none;
  duration_days = 30;
  status = status;
  redeemed_at = elim expires_at [ none ↦ none | some t ↦ some (90 * day) ];
  expires_at = expires_at;
  revoked_at = none;
  code_archived = false;
}

abbrev pub seat : ℕ → ℕ → ℕ → Allocation
seat id card_id account_id = record {
  id = id;
  card_id = card_id;
  account_id = account_id;
  allocated_at = 90 * day;
  valid_until = 120 * day;
  grace_until = none;
  replaced_at = none;
  replacement_reason = none;
  allocation_state = AllocationState.primary;
  active = true;
  superseded_by = none;
}

-- Card 1 holds a seat of the banned account 1, card 2 one of account 2; cards 3 and 4 are unused.
abbrev pub shop : Db
shop = record {
  accounts =
      account 1 1 MonitorStatus.dead_banned AccountStatus.available
      ∷ account 2 1 MonitorStatus.alive AccountStatus.available
      ∷ account 3 0 MonitorStatus.unknown AccountStatus.available
      ∷ [];
  cards =
      card 1 CardStatus.redeemed (some (120 * day))
      ∷ card 2 CardStatus.redeemed (some (120 * day))
      ∷ card 3 CardStatus.unused none
      ∷ card 4 CardStatus.unused none
      ∷ [];
  allocations = seat 2 2 2 ∷ seat 1 1 1 ∷ [];
  next_account = 4;
  next_allocation = 3;
  history = [];
  audits = [];
  nonces = [];
  events = [];
}

abbrev pub ticket : Binding
ticket = record {
  user_uid = 7;
  nonce = 77;
  nonce_exp = 500;
  code_hash_hex = 13;
  code_plaintext = 5;
}

pub shop-IsSound : IsSound shop
unfolding occupancy occupies
shop-IsSound = record {
  distinct = ground arith;
  owed = (refl, (refl, (refl, tt)));
  within = (omega arith, (omega arith, (omega arith, tt)));
  ordered = (omega arith, (omega arith, tt));
  one_primary = λ c. ground arith;
}
