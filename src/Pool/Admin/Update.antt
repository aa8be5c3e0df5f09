-- ===== src/Pool/Admin/Update.antt =====
-- The edit of an account by the administrator and a new status from the monitor: UpdateAccount and
-- UpdateAccountMonitorStatus of repository.go.
use gptshare.Base.{
  ℕ, Bool, true, false, not, ◌&&◌, ◌||◌, Option, none, some, leb, ◌==◌, if◌then◌else◌, is_none,
  update_where, count_where,
}
use gptshare.Time.{datetime}
use gptshare.Pool.Types.{
  Account, AccountStatus, MonitorStatus, Db, Result, ok, no_rows, unique_violation,
  keyring_required, account_expiry_too_long, ◌>>◌, guard,
}
use gptshare.Pool.Tables.{is_available, is_full, is_disabled, is_banned, credentials_complete}
use gptshare.Pool.Admin.{default_to, valid_account_expiry, monitor_taken, instant}

-- A secret of the update: not sent, sent blank or sent with a text.
pub data Secret : Type 0 where
  unsent blank sealed : Secret

-- AccountUpdate; password and totp are whether a text was sent.
pub record Update : Type 0 where
  pub username : ℕ
  pub password : Bool
  pub totp : Bool
  pub source : Secret
  pub pickup : Secret
  pub account_expiry : Option ℕ
  pub max_concurrent_users : ℕ
  pub status : Option AccountStatus
  pub monitor_status : Option MonitorStatus
  pub monitor_account_id : Option ℕ

abbrev is_pending : AccountStatus → Bool
is_pending AccountStatus.pending_credentials = true
is_pending _ = false

abbrev pub asks_pending : Option AccountStatus → Bool
asks_pending none = false
asks_pending (some s) = is_pending s

abbrev pub live_account : ℕ → Account → Bool
live_account k a = a.id == k && is_none a.archived_at

abbrev pub asked_status : Update → Account → AccountStatus
asked_status u a =
    let wanted = default_to AccountStatus.available u.status in
    if is_available wanted && leb u.max_concurrent_users a.current_allocations
    then AccountStatus.full
    else wanted

abbrev is_sealed : Secret → Bool
is_sealed Secret.sealed = true
is_sealed _ = false

abbrev apply_secret : Secret → Bool → Bool
apply_secret Secret.unsent before = before
apply_secret Secret.blank before = false
apply_secret Secret.sealed before = true

abbrev pub needs_keyring : Update → Bool
needs_keyring u = u.password || u.totp || is_sealed u.source || is_sealed u.pickup

-- The first statement and those of the secrets.
abbrev pub edited_row : Update → Account → Account
edited_row u a = record a {
  username = u.username;
  account_expiry = instant u.account_expiry;
  max_concurrent_users = u.max_concurrent_users;
  monitor_account_id = u.monitor_account_id;
  monitor_status = default_to MonitorStatus.unknown_monitor u.monitor_status;
  status = asked_status u a;
  has_password = a.has_password || u.password;
  has_totp = a.has_totp || u.totp;
  has_pickup = apply_secret u.pickup a.has_pickup;
}

abbrev pub follows_seats : AccountStatus → Bool
follows_seats s = is_pending s || is_available s || is_full s

-- The last statement: the status by the credentials and the seats.
abbrev pub seat_status : Account → AccountStatus
seat_status a =
    if follows_seats a.status
    then if credentials_complete a
      then if leb a.max_concurrent_users a.current_allocations
        then AccountStatus.full
        else AccountStatus.available
      else AccountStatus.pending_credentials
    else a.status

abbrev pub seated_row : Account → Account
seated_row a = record a { status = seat_status a }

abbrev pub updated_row : Update → Account → Account
updated_row u a = seated_row (edited_row u a)

unfoldable pub update_account : Bool → ℕ → ℕ → Update → Db → Result Db
update_account has_keyring now k u db = do
  guard (valid_account_expiry now u.account_expiry || asks_pending u.status) account_expiry_too_long
  guard (not (monitor_taken k u.monitor_account_id db.accounts)) unique_violation
  guard (count_where (live_account k) db.accounts == 1) no_rows
  guard (has_keyring || not (needs_keyring u)) keyring_required
  ok (record db { accounts = update_where (live_account k) (updated_row u) db.accounts })

abbrev pub reported_status : ℕ → MonitorStatus → Account → AccountStatus
reported_status now MonitorStatus.dead_banned a = AccountStatus.banned
reported_status now m a = if is_disabled a.status || is_banned a.status then a.status else elim m [
  | MonitorStatus.dead_normal ↦ AccountStatus.expired
  | _ ↦ if leb (datetime a.account_expiry) (datetime now) then AccountStatus.expired else a.status
]

abbrev pub reported_row : ℕ → Option ℕ → Option MonitorStatus → Account → Account
reported_row now m s a = record a {
  monitor_account_id = m;
  monitor_status = default_to MonitorStatus.unknown_monitor s;
  status = reported_status now (default_to MonitorStatus.unknown_monitor s) a;
}

unfoldable pub update_account_monitor_status :
    ℕ → ℕ → Option ℕ → Option MonitorStatus → Db → Result Db
update_account_monitor_status now k m s db = do
  guard (not (monitor_taken k m db.accounts)) unique_violation
  guard (count_where (live_account k) db.accounts == 1) no_rows
  ok (record db { accounts = update_where (live_account k) (reported_row now m s) db.accounts })
