-- ===== src/Pool/Events.antt =====
-- Account events of the monitor: ApplyMonitorAccountEvent of account_events.go.
pub mod Sound
pub mod Order
use gptshare.Base.{
  ℕ, suc, ◌+◌, Bool, true, false, not, ◌&&◌, ◌||◌, Option, none, some, List, [], ◌∷◌, leb, ltb,
  ◌==◌, if◌then◌else◌, is_none, is_some, update_where, exists_where, find_where, length,
}
use gptshare.Pool.Types.{
  MonitorStatus, AccountStatus, Account, Allocation, Reason, account_expired, Audit, event_applied,
  Db, Result, ok, err, invalid_event, keyring_required, invalid_setting, scan_failed, ◌>>=◌, ◌>>◌,
  guard,
}
use gptshare.Pool.Tables.{
  is_redeemed, is_primary, is_dead_banned, is_dead_normal, some_after, has_id, credentials_complete,
}
use gptshare.Pool.Candidate.{find_card}
use gptshare.Pool.Sweep.{close_banned_grace_allocations}
use gptshare.Pool.Replace.{Due}
use gptshare.Pool.Process.{sorted_due, replace_all}
use gptshare.Pool.Retire.{RetireReason, archive_retired_account}
use gptshare.Pool.Message.{
  Plan, EventType, Text, Event, is_free, validate, event_allocation_status,
  default_account_capacity,
}

pub data Disposition : Type 0 where
  applied duplicate stale ignored_archived : Disposition

-- Rows of monitor_account_events.
pub record Processed : Type 0 where
  pub event_id : ℕ
  pub provider_account_id : ℕ
  pub version : ℕ
  pub disposition : Disposition

pub record Feed : Type 0 where
  pub db : Db
  pub processed : List Processed

pub record Outcome : Type 0 where
  pub disposition : Disposition
  pub created : Bool
  pub updated : Bool
  pub migrated : ℕ
  pub pending : ℕ
  pub retired : Bool

abbrev pub provided_by : Event → Account → Bool
provided_by e a = elim a.monitor_account_id [
  | none ↦ false
  | some m ↦ m == e.provider_account_id.value
]

abbrev username_of : Event → ℕ
username_of e = if e.email.value == 0 then e.provider_account_id.value else e.email.value

abbrev expiry_of : Event → ℕ
expiry_of e = elim e.subscription_expiry [ none ↦ 0 | some t ↦ t ]

abbrev pub new_account : ℕ → ℕ → ℕ → Event → Account
new_account id capacity now e = record {
  id = id;
  username = username_of e;
  account_expiry = expiry_of e;
  max_concurrent_users = capacity;
  current_allocations = 0;
  monitor_account_id = some e.provider_account_id.value;
  monitor_status = e.status;
  status = event_allocation_status e.status e.plan false 0 capacity (expiry_of e) now;
  last_allocated_at = none;
  archived_at = none;
  sync_version = e.version;
  has_password = false;
  has_totp = false;
  has_pickup = false;
}

abbrev pub sync_row : ℕ → Event → Account → Account
sync_row now e a = record a {
  username = username_of e;
  account_expiry = expiry_of e;
  monitor_status = e.status;
  status =
      event_allocation_status e.status e.plan (credentials_complete a) a.current_allocations
        a.max_concurrent_users (expiry_of e) now;
  sync_version = e.version;
}

-- accountAllocationsDueForReplacement, ordered by the allocation's id.
unfoldable pub account_due : ℕ → ℕ → Reason → Db → Allocation → Option (List ℕ × Due)
account_due now k reason db l =
    if l.account_id == k && l.active && is_primary l.allocation_state
    then elim (find_card l.card_id db.cards) [
      | none ↦ none
      | some c ↦
          if is_redeemed c.status && some_after now c.expires_at
          then some (
            l.id ∷ [],
            record {
              allocation_id = l.id;
              card_id = l.card_id;
              old_account_id = l.account_id;
              card_expires_at = elim c.expires_at [ none ↦ 0 | some t ↦ t ];
              reason = reason;
            },
          )
          else none
    ]
    else none

-- migrateAccountCustomers: the database, the cards moved and the cards left.
unfoldable pub migrate_account_customers : ℕ → ℕ → Reason → Db → Db × ℕ × ℕ
migrate_account_customers now k reason db =
    let (moved, replaced, failed) =
      replace_all now (sorted_due (account_due now k reason db) db.allocations) db in
    (moved, length replaced, failed)

-- The test of complete credentials is NULL, which does not scan into a bool, when there is a password
-- but neither a TOTP secret nor a pickup address, whose column is NULL without one.
abbrev pub unscannable : Account → Bool
unscannable a = a.has_password && not a.has_totp && not a.has_pickup

unfoldable pub sync_account :
    Bool → Option (Option ℕ) → ℕ → Event → Option Account → Db → Result (Db × ℕ × Bool)
sync_account has_keyring setting now e none db = do
  guard has_keyring keyring_required
  capacity ← default_account_capacity setting
  ok (
    record db {
      accounts = new_account db.next_account capacity now e ∷ db.accounts;
      next_account = suc db.next_account;
    },
    db.next_account,
    true,
  )
sync_account has_keyring setting now e (some a) db =
    if unscannable a
    then err scan_failed
    else ok (
      record db { accounts = update_where (has_id a.id) (sync_row now e) db.accounts },
      a.id,
      false,
    )

-- The customers of an account that went out of service move on, and an account without any is archived.
unfoldable pub move_on : ℕ → ℕ → Reason → RetireReason → Db → Db × ℕ × ℕ × Bool
move_on now k reason retire_reason db =
    let (moved, migrated, pending) = migrate_account_customers now k reason db in
    let (last, retired) = archive_retired_account retire_reason now k moved in
    (last, migrated, pending, retired)

unfoldable pub follow_up : ℕ → Event → ℕ → Db → Db × ℕ × ℕ × Bool
follow_up now e k db =
    if is_dead_banned e.status
    then move_on now k Reason.banned RetireReason.banned (close_banned_grace_allocations now db)
    else if is_dead_normal e.status || is_free e.plan
    then move_on now k account_expired RetireReason.expired db
    else (db, 0, 0, false)

abbrev pub log_event : Event → Disposition → List Processed → List Processed
log_event e d log =
    record {
      event_id = e.event_id.value;
      provider_account_id = e.provider_account_id.value;
      version = e.version;
      disposition = d;
    }
    ∷ log

abbrev pub untouched : Disposition → Outcome
untouched d = record {
  disposition = d;
  created = false;
  updated = false;
  migrated = 0;
  pending = 0;
  retired = false;
}

abbrev pub seen : Event → List Processed → Bool
seen e = exists_where (λ p. p.event_id == e.event_id.value)

-- The event is not newer than what the account's row shows.
abbrev pub is_stale : Event → Option Account → Bool
is_stale e none = false
is_stale e (some a) = leb e.version a.sync_version

abbrev pub is_archived : Option Account → Bool
is_archived none = false
is_archived (some a) = is_some a.archived_at

unfoldable pub apply_new :
    Bool → Option (Option ℕ) → ℕ → Event → Option Account → Feed → Result (Feed × Outcome)
apply_new has_keyring setting now e found feed =
    sync_account has_keyring setting now e found feed.db >>= λ s.
    let moved = follow_up now e s.1 s.0 in
    ok (
      record {
        db = record moved.0 { audits = event_applied s.1 ∷ moved.0.audits };
        processed = log_event e Disposition.applied feed.processed;
      },
      record {
        disposition = Disposition.applied;
        created = s.2;
        updated = not s.2;
        migrated = moved.1;
        pending = moved.2;
        retired = moved.3;
      },
    )

-- An event that is recorded and changes nothing else.
abbrev pub ignored : Event → Disposition → Feed → Result (Feed × Outcome)
ignored e d feed = ok (record feed { processed = log_event e d feed.processed }, untouched d)

unfoldable pub apply_unseen :
    Bool → Option (Option ℕ) → ℕ → Event → Option Account → Feed → Result (Feed × Outcome)
apply_unseen has_keyring setting now e found feed =
    if is_stale e found
    then ignored e Disposition.stale feed
    else if is_archived found
    then ignored e Disposition.ignored_archived feed
    else apply_new has_keyring setting now e found feed

-- ApplyMonitorAccountEvent
unfoldable pub apply_monitor_account_event :
    Bool → Option (Option ℕ) → ℕ → Event → Feed → Result (Feed × Outcome)
apply_monitor_account_event has_keyring setting now e feed =
    if not (validate e)
    then err invalid_event
    else if seen e feed.processed
    then ok (feed, untouched Disposition.duplicate)
    else apply_unseen has_keyring setting now e (find_where (provided_by e) feed.db.accounts) feed
