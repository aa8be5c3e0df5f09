-- ===== src/Monitor/Types.antt =====
-- Rows of the monitor's tables accounts, authorization_epochs, status_change_log, alert_events and
-- allocation_account_outbox with the columns that applyResult reads or writes (secrets, labels of
-- people and updated_at apart), and the results of a poll. Instants are nanoseconds; texts stand for
-- themselves as numbers, 0 for an empty one.
use gptshare.Base.{ℕ, Bool, true, false, Option, List}
use gptshare.Pool.Message.{Plan, EventType}

pub data Life : Type 0 where
  alive dead_normal dead_banned : Life

-- last_check_state
pub data Check : Type 0 where
  check_pending check_ok check_error verification_required contract_changed
        reauthorization_required :
      Check

-- Evidence codes.
pub data Code : Type 0 where
  normal_expiry account_disabled account_deactivated http_401 http_403 refresh_token_reused
        session_terminated oauth_refresh_unauthorized oauth_refresh_forbidden
        oauth_refresh_token_reused oauth_session_terminated oauth_refresh_token_invalid
        credential_reload credential_changed_during_poll :
      Code
  other_code : ℕ → Code

pub data Level : Type 0 where
  live_verified contract_verified unverified : Level

pub data Kind : Type 0 where
  credential_revoked disabled permission_denied rate_limited upstream_transient contract_change
        authorization_required invalid_input :
      Kind

pub data DeathType : Type 0 where
  normal_death abnormal_ban : DeathType

pub data PauseReason : Type 0 where
  on_normal_expiry plan_downgraded_to_free unverified_active_result on_abnormal_ban
        evidence_signature_rejected on_contract_changed on_reauthorization :
      PauseReason

pub record Account : Type 0 where
  pub id : ℕ
  pub provider_id : ℕ
  pub email : ℕ
  pub label : ℕ
  pub plan : Plan
  pub raw_plan : ℕ
  pub current_expiry : Option ℕ
  pub auth_expiry : ℕ
  pub status : Life
  pub last_alive_at : Option ℕ
  pub dead_at : Option ℕ
  pub death_type : Option DeathType
  pub survival : Option ℕ
  pub last_check : Check
  pub last_error : Option Code
  pub next_retry_at : Option ℕ
  pub polling_paused : Bool
  pub pause_reason : Option PauseReason
  pub pending_signature : Option ℕ
  pub pending_detected : Option ℕ
  pub generation : ℕ
  pub sync_version : ℕ
  pub deleted : Bool

pub record Epoch : Type 0 where
  pub id : ℕ
  pub account_id : ℕ
  pub ended_at : Option ℕ
  pub terminal_status : Option Life
  pub dead_at : Option ℕ
  pub survival : Option ℕ

-- The field and the values before and after.
pub data Change : Type 0 where
  status_change : Life → Life → Change
  plan_change : Plan → Plan → Change
  expiry_change : Option ℕ → Option ℕ → Change
  check_change : Check → Check → Change

-- A row of status_change_log: the account, its epoch, the instant, the change and its evidence.
pub record Logged : Type 0 where
  pub account_id : ℕ
  pub epoch_id : ℕ
  pub at_ : ℕ
  pub change : Change
  pub code : Code
  pub level : Level
  pub signature : ℕ

-- A pending row of allocation_account_outbox.
pub record Message : Type 0 where
  pub account_id : ℕ
  pub version : ℕ
  pub type : EventType
  pub occurred_at : ℕ
  pub plan : Plan
  pub subscription_expiry : ℕ
  pub status : Life

pub record Store : Type 0 where
  pub accounts : List Account
  pub epochs : List Epoch
  pub changes : List Logged
  pub alerts : List ℕ
  pub outbox : List Message

-- chatgpt.StatusResult
pub record Status : Type 0 where
  pub email : ℕ
  pub raw_plan : ℕ
  pub plan : Plan
  pub subscription_expiry : Option ℕ
  pub level : Level

-- chatgpt.TypedError
pub record TypedError : Type 0 where
  pub kind : Kind
  pub evidence_code : Code
  pub level : Level
  pub retryable : Bool
  pub retry_after : ℕ
  pub banned_candidate : Bool

-- pollResult
pub record PollResult : Type 0 where
  pub status : Option Status
  pub typed : Option TypedError
  pub endpoint : ℕ
  pub code : Code
  pub generation : ℕ
  pub reload_credential : Bool
  pub skipped : Bool

-- accountRecord, as it was read when the poll began.
pub record Record : Type 0 where
  pub id : ℕ
  pub provider_id : ℕ
  pub auth_expiry : ℕ
  pub import_time : ℕ
  pub epoch_id : ℕ
  pub generation : ℕ

abbrev pub is_alive : Life → Bool
is_alive Life.alive = true
is_alive _ = false

abbrev pub is_dead_normal : Life → Bool
is_dead_normal Life.dead_normal = true
is_dead_normal _ = false

abbrev pub is_dead_banned : Life → Bool
is_dead_banned Life.dead_banned = true
is_dead_banned _ = false

abbrev pub is_ok : Check → Bool
is_ok Check.check_ok = true
is_ok _ = false

abbrev pub is_normal_expiry : Code → Bool
is_normal_expiry Code.normal_expiry = true
is_normal_expiry _ = false

abbrev pub is_live : Level → Bool
is_live Level.live_verified = true
is_live _ = false

abbrev pub is_unverified : Level → Bool
is_unverified Level.unverified = true
is_unverified _ = false
