-- ===== src/Examples/Polls.antt =====
-- Polls of the monitor, failed refreshes and logins.
use gptshare.Base.{
  ◌*◌, ◌≡◌, refl, inr, Bool, true, false, ◌||◌, Option, none, some, [], ◌∷◌, arith, All,
}
use gptshare.Time.{day}
use gptshare.Pool.Message.{Plan}
use gptshare.Monitor.Types.{
  Life, Check, Code, Level, Kind, Account, Store, TypedError, PollResult, Record,
}
use gptshare.Monitor.Judge.{
  judge, judge_error, judge_evidence, is_stable_ban_candidate, ban, fill_only_email, is_disabled,
  is_credential_revoked, is_authorization_required,
}
use gptshare.Monitor.Store.{
  Config, registry_level, fill_email, enqueue_account, announce_expiry, announce_ban, write_verdict,
  conclude, apply_to, apply_result,
}
use gptshare.Monitor.Verdicts.{judge_error-preserves}
use gptshare.Monitor.Sound.Health.{Healthy, apply-Healthy}
use gptshare.Monitor.Refresh.{
  authorization_required, refresh_code, with_code, normalize_refresh,
  normalize_oauth_refresh_failure, normalize-no_ban,
}
use gptshare.Limiter.{Attempted, check, record_attempt, check-record_attempt}

abbrev config : Config
config = record {
  min_interval = 900000000000;
  registry = λ s. none;
  signature_for = λ e c. e;
  jitter = λ k i. k;
}

abbrev polled : Account
polled = record {
  id = 1;
  provider_id = 41;
  email = 0;
  label = 41;
  plan = Plan.plus;
  raw_plan = 6;
  current_expiry = some (300 * day);
  auth_expiry = 200 * day;
  status = Life.alive;
  last_alive_at = none;
  dead_at = none;
  death_type = none;
  survival = none;
  last_check = Check.check_ok;
  last_error = none;
  next_retry_at = some (99 * day);
  polling_paused = false;
  pause_reason = none;
  pending_signature = none;
  pending_detected = none;
  generation = 2;
  sync_version = 7;
  deleted = false;
}

abbrev store : Store
store = record {
  accounts = polled ∷ [];
  epochs =
      record {
        id = 8;
        account_id = 1;
        ended_at = none;
        terminal_status = none;
        dead_at = none;
        survival = none;
      }
      ∷ [];
  changes = [];
  alerts = [];
  outbox = [];
}

abbrev poll_record : Record
poll_record = record {
  id = 1;
  provider_id = 41;
  auth_expiry = 200 * day;
  import_time = 50 * day;
  epoch_id = 8;
  generation = 2;
}

abbrev disabled : TypedError
disabled = record {
  kind = Kind.disabled;
  evidence_code = Code.account_deactivated;
  level = Level.contract_verified;
  retryable = false;
  retry_after = 0;
  banned_candidate = true;
}

abbrev banning : PollResult
banning = record {
  status = none;
  typed = some disabled;
  endpoint = 3;
  code = Code.account_deactivated;
  generation = 2;
  reload_credential = false;
  skipped = false;
}

abbrev store_or : Store → Option (Store × Bool) → Store
store_or s none = s
store_or s (some r) = r.0

abbrev banned_store : Store
banned_store = store_or store (apply_result config (100 * day) day poll_record banning store)

store-banned :
    apply_result config (100 * day) day poll_record banning store ≡ some (banned_store, true)
unfolding apply_result apply_to judge judge_evidence judge_error conclude announce_expiry
    announce_ban enqueue_account write_verdict is_stable_ban_candidate registry_level ban fill_email
    fill_only_email
store-banned = refl

apply-Healthy_example : All Healthy banned_store.accounts
apply-Healthy_example =
    apply-Healthy config (100 * day) day poll_record banning store banned_store true
      (λ h. absurd (ground (arith, h)))
      (
        record {
          dead_paused = λ h. absurd (ground (arith, h));
          dead_dated = λ h. absurd (ground (arith, h));
          dead_typed = λ h. absurd (ground (arith, h));
          quiet = λ h. absurd (ground (arith, h));
        },
        tt,
      )
      store-banned

-- The evidence was rejected in a review.
judge_error-preserves_example :
    let v = judge_error 900000000000 (100 * day) 3 Level.unverified poll_record polled disabled in
    (v.status ≡ Life.alive)
    × (v.plan ≡ Plan.plus)
    × (v.expiry ≡ some (300 * day))
    × (v.dead_at ≡ none)
    × (v.closes ≡ none)
judge_error-preserves_example =
    judge_error-preserves 900000000000 (100 * day) 3 Level.unverified poll_record polled disabled
      (inr refl)

normalize-no_ban_example :
    (is_stable_ban_candidate (authorization_required Code.oauth_refresh_token_invalid) ≡ false)
    × ((is_disabled Kind.disabled || is_credential_revoked Kind.disabled) ≡ true
        → is_authorization_required Kind.authorization_required ≡ true)
unfolding authorization_required normalize_oauth_refresh_failure normalize_refresh with_code
    refresh_code
normalize-no_ban_example =
    normalize-no_ban banning disabled (authorization_required Code.oauth_refresh_token_invalid) refl
      refl refl

check-record_attempt_example :
    let r = record_attempt (λ u. u) (λ i. i) (100 * day) 5 6 Attempted.failure [] in
    check (λ u. u) (λ i. i) (100 * day) 5 6 r.0 ≡ r.1
check-record_attempt_example =
    check-record_attempt (λ u. u) (λ i. i) (100 * day) 5 6 Attempted.failure []
