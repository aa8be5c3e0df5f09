-- ===== src/Pool/Types.antt =====
-- Rows of the tables chatgpt_accounts, cards, allocations, replacement_history, audit_events,
-- used_bind_nonces and redemption_events (allocation-service/internal/store/migrations), with the
-- columns that the modelled statements read or decide by; internal/models/models.go has the same
-- rows. Columns created_at and updated_at and the secrets are left out. `username` identifies the
-- value of lower(trim(display_username)). The newest row of a table stands first.
use gptshare.Base.{if◌then◌else◌, ◌≡◌, refl, ap, ℕ, Option, Bool, true, false, List}

pub data MonitorStatus : Type 0 where
  alive unknown unknown_monitor dead_normal dead_banned not_found : MonitorStatus

pub data AccountStatus : Type 0 where
  available pending_credentials unknown_monitor full expired banned disabled : AccountStatus

pub data CardStatus : Type 0 where
  unused redeemed expired revoked consumed : CardStatus

pub data AllocationState : Type 0 where
  primary grace replaced expired revoked : AllocationState

-- Values of replacement_reason.
pub data Reason : Type 0 where
  banned account_expired account_expiring grace_expired grace_superseded account_retired : Reason

pub record Account : Type 0 where
  pub id : ℕ
  pub username : ℕ
  pub account_expiry : ℕ
  pub max_concurrent_users : ℕ
  pub current_allocations : ℕ
  pub monitor_account_id : Option ℕ
  pub monitor_status : MonitorStatus
  pub status : AccountStatus
  pub last_allocated_at : Option ℕ
  pub archived_at : Option ℕ
  pub sync_version : ℕ
  pub has_password : Bool
  pub has_totp : Bool
  pub has_pickup : Bool

pub record Card : Type 0 where
  pub id : ℕ
  pub code_hash : ℕ
  pub group_id : Option ℕ
  pub duration_days : ℕ
  pub status : CardStatus
  pub redeemed_at : Option ℕ
  pub expires_at : Option ℕ
  pub revoked_at : Option ℕ
  pub code_archived : Bool

pub record Allocation : Type 0 where
  pub id : ℕ
  pub card_id : ℕ
  pub account_id : ℕ
  pub allocated_at : ℕ
  pub valid_until : ℕ
  pub grace_until : Option ℕ
  pub replaced_at : Option ℕ
  pub replacement_reason : Option Reason
  pub allocation_state : AllocationState
  pub active : Bool
  pub superseded_by : Option ℕ

pub record Replacement : Type 0 where
  pub card_id : ℕ
  pub old_account_id : ℕ
  pub new_account_id : ℕ
  pub reason : Reason
  pub replaced_at : ℕ
  pub grace_until : Option ℕ

-- Actions of audit_events with their targets.
pub data Audit : Type 0 where
  replacement_failed replacement_completed count_reconciled account_retired event_applied :
      ℕ → Audit
  cards_renew cards_different : ℕ → Audit
  availability_reconciled : Audit

-- RedemptionBinding; 0 stands for an empty text.
pub record Binding : Type 0 where
  pub user_uid : ℕ
  pub nonce : ℕ
  pub nonce_exp : ℕ
  pub code_hash_hex : ℕ
  pub code_plaintext : ℕ

pub record RedemptionEvent : Type 0 where
  pub card_id : ℕ
  pub user_uid : ℕ
  pub claimed : Bool

pub record Db : Type 0 where
  pub accounts : List Account
  pub cards : List Card
  pub allocations : List Allocation
  pub next_account : ℕ
  pub next_allocation : ℕ
  pub history : List Replacement
  pub audits : List Audit
  pub nonces : List (ℕ × ℕ)
  pub events : List RedemptionEvent

pub data Error : Type 0 where
  no_rows card_state_conflict card_duration_limit no_account_capacity : Error
  bind_nonce_reused binding_incomplete unique_violation : Error
  invalid_event keyring_required invalid_setting account_replacement_unavailable : Error
  invalid_card_action card_action_conflict sqlite_busy : Error
  account_expiry_too_long account_archived credentials_unreadable scan_failed : Error

-- A statement of a transaction fails with the sentinel error that rolls it back, or goes on.
pub data Result {ι} (Row : Type ι) : Type ι where
  err : Error → Result Row
  ok : Row → Result Row

-- sql.ErrNoRows and the like: what a query does not find.
abbrev pub or_fail {ι} : {Row : Type ι} → Option Row → Error → Result Row
or_fail found reason = elim found [ Option.none ↦ err reason | Option.some row ↦ ok row ]

-- `if err != nil { return err }` after a call.
infixl 5 ◌>>=◌
abbrev pub ◌>>=◌ {ι κ} :
    {Row : Type ι} {Next : Type κ} → Result Row → (Row → Result Next) → Result Next
call >>= rest = elim call [ err reason ↦ err reason | ok row ↦ rest row ]

-- A guard that returns early.
abbrev pub guard : Bool → Error → Result (Unit {0})
guard allowed reason = if allowed then ok tt else err reason

infixl 5 ◌>>◌
abbrev pub ◌>>◌ {ι κ} : {Row : Type ι} {Next : Type κ} → Result Row → Result Next → Result Next
call >> rest = call >>= λ ignored. rest

-- A call that went through, of which the rest went through too.
pub >>=-eq-ok {ι κ} :
    {Row : Type ι} {Next : Type κ} (call : Result Row) (rest : Row → Result Next) {last : Next}
    → call >>= rest ≡ ok last
    → (row : Row) × (call ≡ ok row) × (rest row ≡ ok last)
>>=-eq-ok (err reason) rest went = cc
>>=-eq-ok (ok row) rest went = (row, refl, went)

pub or_fail-eq-ok {ι} :
    {Row : Type ι} (found : Option Row) (reason : Error) {row : Row}
    → or_fail found reason ≡ ok row
    → found ≡ Option.some row
or_fail-eq-ok Option.none reason went = cc
or_fail-eq-ok (Option.some row) reason went = cc

pub guard-eq-ok :
    (allowed : Bool) (reason : Error) {u : Unit {0}} → guard allowed reason ≡ ok u → allowed ≡ true
guard-eq-ok true reason went = refl
guard-eq-ok false reason went = cc

abbrev pub value_or {ℓ} : {A : Type ℓ} → A → Result A → A
value_or default (err reason) = default
value_or default (ok row) = row

pub ok-injective {ℓ} : {A : Type ℓ} {a b : A} → ok a ≡ ok b → a ≡ b
ok-injective {a} h = ap (value_or a) h
