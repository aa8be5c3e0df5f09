-- ===== src/Pool/Message.antt =====
-- The events that the monitor sends and what they say of an account: accountsync/contract.go with
-- Event.Validate, eventAllocationStatus of account_events.go and defaultAccountCapacityTx of
-- repository.go.
use gptshare.Base.{
  ℕ, Bool, true, false, not, ◌&&◌, ◌||◌, Option, none, some, leb, ltb, ◌==◌, if◌then◌else◌, is_none,
}
use gptshare.Pool.Types.{MonitorStatus, AccountStatus, Result, ok, err, invalid_setting}
use gptshare.Pool.Tables.{is_dead_banned}

pub data Plan : Type 0 where
  free plus team unknown other_plan : Plan

pub data EventType : Type 0 where
  created updated dead_banned reauthorized other_type : EventType

-- A text by what identifies it, 0 for one that is blank, and its length in bytes.
pub record Text : Type 0 where
  pub value : ℕ
  pub length : ℕ

-- `occurred` and `expiry` are none for a zero time.
pub record Event : Type 0 where
  pub event_id : Text
  pub version : ℕ
  pub type : EventType
  pub occurred_at : Option ℕ
  pub provider_account_id : Text
  pub email : Text
  pub plan : Plan
  pub subscription_expiry : Option ℕ
  pub status : MonitorStatus

abbrev known_type : EventType → Bool
known_type EventType.other_type = false
known_type _ = true

abbrev known_plan : Plan → Bool
known_plan Plan.other_plan = false
known_plan _ = true

abbrev pub is_free : Plan → Bool
is_free Plan.free = true
is_free _ = false

abbrev known_status : MonitorStatus → Bool
known_status MonitorStatus.alive = true
known_status MonitorStatus.dead_normal = true
known_status MonitorStatus.dead_banned = true
known_status _ = false

abbrev ban_event : EventType → Bool
ban_event EventType.dead_banned = true
ban_event _ = false

-- Event.Validate
unfoldable pub validate : Event → Bool
validate e =
    not (
      e.event_id.value == 0
      || ltb 128 e.event_id.length
      || ltb e.version 1
      || is_none e.occurred_at
      || e.provider_account_id.value == 0
      || ltb 512 e.provider_account_id.length
      || is_none e.subscription_expiry)
    && known_type e.type
    && known_status e.status
    && known_plan e.plan
    && not (ban_event e.type && not (is_dead_banned e.status))

-- eventAllocationStatus
unfoldable pub event_allocation_status : MonitorStatus → Plan → Bool → ℕ → ℕ → ℕ → ℕ → AccountStatus
event_allocation_status MonitorStatus.dead_banned plan complete allocations capacity expiry now =
    AccountStatus.banned
event_allocation_status MonitorStatus.dead_normal plan complete allocations capacity expiry now =
    AccountStatus.expired
event_allocation_status status plan complete allocations capacity expiry now =
    if is_free plan
    then AccountStatus.expired
    else if leb expiry now
    then AccountStatus.expired
    else if not complete
    then AccountStatus.pending_credentials
    else if leb capacity allocations
    then AccountStatus.full
    else AccountStatus.available

-- The stored setting: none without a row, some none when its text is no number.
unfoldable pub default_account_capacity : Option (Option ℕ) → Result ℕ
default_account_capacity none = ok 3
default_account_capacity (some none) = err invalid_setting
default_account_capacity (some (some n)) =
    if leb 1 n && leb n 1000 then ok n else err invalid_setting
