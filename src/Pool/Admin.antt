-- ===== src/Pool/Admin.antt =====
-- Accounts under the administrator: CreateAccount, UpsertSyncedAccount, UpdateAccount,
-- UpdateAccountMonitorStatus, SetDefaultAccountCapacity and ApplyDefaultAccountCapacity of repository.go.
-- An empty text is none; a sealed secret is never empty; the audits, written after the commit, and
-- the keys are left out.
pub mod Capacity
pub mod Update
pub mod Sound
use gptshare.Base.{
  ℕ, suc, Bool, true, false, not, ◌&&◌, ◌||◌, Option, none, some, List, [], ◌∷◌, leb, ltb, ◌==◌,
  if◌then◌else◌, is_some, is_none, update_where, count_where, exists_where, find_where,
}
use gptshare.Time.{datetime}
use gptshare.Pool.Types.{
  Account, AccountStatus, MonitorStatus, Db, Result, ok, err, no_rows, unique_violation,
  invalid_setting, keyring_required, account_expiry_too_long, account_archived, ◌>>=◌, ◌>>◌, guard,
}
use gptshare.Pool.Tables.{
  is_available, is_full, is_disabled, is_banned, is_dead_banned, is_dead_normal,
  credentials_complete,
}
use gptshare.Pool.Message.{default_account_capacity}

abbrev pub default_to {ℓ} : {A : Type ℓ} → A → Option A → A
default_to d none = d
default_to d (some x) = x

-- The stored setting: none without a row, some none when its text is no number.
abbrev pub Setting : Type 0
Setting = Option (Option ℕ)

abbrev pub valid_account_capacity : ℕ → Bool
valid_account_capacity n = leb 1 n && leb n 1000

-- SetDefaultAccountCapacity
unfoldable pub set_default_account_capacity : ℕ → Setting → Result Setting
set_default_account_capacity capacity setting =
    if valid_account_capacity capacity then ok (some (some capacity)) else err invalid_setting

abbrev pub in_use : Account → Bool
in_use a = is_none a.archived_at

abbrev pub capacity_status : ℕ → Account → AccountStatus
capacity_status capacity a =
    if leb capacity a.current_allocations
    then AccountStatus.full
    else if is_full a.status
    then AccountStatus.available
    else a.status

abbrev pub capacity_row : ℕ → Account → Account
capacity_row capacity a = record a {
  max_concurrent_users = capacity;
  status = capacity_status capacity a;
}

-- ApplyDefaultAccountCapacity: the accounts, and how many were updated.
unfoldable pub apply_default_account_capacity : Setting → Db → Result (Db × ℕ)
apply_default_account_capacity setting db = do
  capacity ← default_account_capacity setting
  ok (
    record db { accounts = update_where in_use (capacity_row capacity) db.accounts },
    count_where in_use db.accounts,
  )

-- validateAccountExpiry; none is the zero time.
unfoldable pub valid_account_expiry : ℕ → Option ℕ → Bool
valid_account_expiry now none = false
valid_account_expiry now (some t) = not (ltb t now)

-- AccountSeed; a text is none when it is empty.
pub record Seed : Type 0 where
  pub username : ℕ
  pub totp : Bool
  pub pickup : Bool
  pub account_expiry : Option ℕ
  pub max_concurrent_users : ℕ
  pub monitor_account_id : Option ℕ
  pub status : Option AccountStatus
  pub monitor_status : Option MonitorStatus

-- The unique column monitor_account_id, in another row than `k`.
abbrev same_monitor : Option ℕ → Option ℕ → Bool
same_monitor (some i) (some j) = i == j
same_monitor _ _ = false

abbrev pub monitor_taken : ℕ → Option ℕ → List Account → Bool
monitor_taken k m = exists_where (λ a. same_monitor m a.monitor_account_id && not (a.id == k))

abbrev pub instant : Option ℕ → ℕ
instant none = 0
instant (some t) = t

abbrev pub seed_account : ℕ → ℕ → Seed → Account
seed_account id capacity seed = record {
  id = id;
  username = seed.username;
  account_expiry = instant seed.account_expiry;
  max_concurrent_users = capacity;
  current_allocations = 0;
  monitor_account_id = seed.monitor_account_id;
  monitor_status = default_to MonitorStatus.unknown_monitor seed.monitor_status;
  status = default_to AccountStatus.available seed.status;
  last_allocated_at = none;
  archived_at = none;
  sync_version = 0;
  has_password = true;
  has_totp = seed.totp;
  has_pickup = seed.pickup;
}

abbrev pub insert_account : Account → Db → Db
insert_account a db = record db { accounts = a ∷ db.accounts; next_account = suc db.next_account }

-- seed.MaxConcurrentUsers == 0
abbrev pub chosen_capacity : Setting → ℕ → Result ℕ
chosen_capacity setting n = if n == 0 then default_account_capacity setting else ok n

-- CreateAccount
unfoldable pub create_account : Bool → Setting → ℕ → Seed → Db → Result (Db × ℕ)
create_account has_keyring setting now seed db = do
  capacity ← chosen_capacity setting seed.max_concurrent_users
  guard (valid_account_expiry now seed.account_expiry) account_expiry_too_long
  guard has_keyring keyring_required
  guard (not (monitor_taken db.next_account seed.monitor_account_id db.accounts)) unique_violation
  ok (insert_account (seed_account db.next_account capacity seed) db, db.next_account)

-- SyncedAccount, with 0 for an empty text.
pub record Synced : Type 0 where
  pub monitor_account_id : ℕ
  pub username : ℕ
  pub account_expiry : Option ℕ
  pub max_concurrent_users : ℕ
  pub monitor_status : Option MonitorStatus

abbrev pub synced_status : Synced → MonitorStatus
synced_status seed = default_to MonitorStatus.unknown seed.monitor_status

abbrev terminal : Synced → Bool
terminal seed = is_dead_normal (synced_status seed) || is_dead_banned (synced_status seed)

abbrev before : ℕ → Option ℕ → Bool
before now none = false
before now (some t) = ltb t now

abbrev pub incomplete : ℕ → Synced → Bool
incomplete now seed =
    seed.monitor_account_id == 0
    || seed.username == 0
    || is_none seed.account_expiry
    || (before now seed.account_expiry && not (terminal seed))

abbrev pub dead_status : AccountStatus → MonitorStatus → AccountStatus
dead_status other MonitorStatus.dead_banned = AccountStatus.banned
dead_status other MonitorStatus.dead_normal = AccountStatus.expired
dead_status other _ = other

abbrev pub synced_row : Synced → Account → Account
synced_row seed a = record a {
  username = seed.username;
  account_expiry = instant seed.account_expiry;
  monitor_status = synced_status seed;
  status = dead_status a.status (synced_status seed);
}

abbrev pub synced_account : ℕ → ℕ → Synced → Account
synced_account id capacity seed = record {
  id = id;
  username = seed.username;
  account_expiry = instant seed.account_expiry;
  max_concurrent_users = capacity;
  current_allocations = 0;
  monitor_account_id = some seed.monitor_account_id;
  monitor_status = synced_status seed;
  status = dead_status AccountStatus.pending_credentials (synced_status seed);
  last_allocated_at = none;
  archived_at = none;
  sync_version = 0;
  has_password = false;
  has_totp = false;
  has_pickup = false;
}

abbrev pub of_monitor : ℕ → Account → Bool
of_monitor m a = elim a.monitor_account_id [ none ↦ false | some i ↦ i == m ]

unfoldable pub sync_existing : Synced → Account → Db → Result (Db × Bool)
sync_existing seed a db =
    if is_some a.archived_at
    then err account_archived
    else ok (
      record db { accounts = update_where (λ x. x.id == a.id) (synced_row seed) db.accounts },
      false,
    )

unfoldable pub sync_found : Bool → ℕ → Synced → Option Account → Db → Result (Db × Bool)
sync_found has_keyring capacity seed (some a) db = sync_existing seed a db
sync_found has_keyring capacity seed none db = do
  guard has_keyring keyring_required
  ok (insert_account (synced_account db.next_account capacity seed) db, true)

-- UpsertSyncedAccount, with whether the account was created.
unfoldable pub upsert_synced_account : Bool → Setting → ℕ → Synced → Db → Result (Db × Bool)
upsert_synced_account has_keyring setting now seed db = do
  guard (not (incomplete now seed)) account_expiry_too_long
  capacity ← chosen_capacity setting seed.max_concurrent_users
  guard (valid_account_capacity capacity) invalid_setting
  sync_found has_keyring capacity seed (find_where (of_monitor seed.monitor_account_id) db.accounts)
      db
