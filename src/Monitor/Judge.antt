-- ===== src/Monitor/Judge.antt =====
-- What a poll's result says of an account: the decisions of applyResult, isStableBanCandidate,
-- isCredentialFailure, retryDelay, nullableError and fillOnlyEmailProjection (internal/monitor).
use gptshare.Base.{
  ℕ, ◌+◌, ◌-◌, Bool, true, false, not, ◌&&◌, ◌||◌, Option, none, some, ltb, ◌==◌, if◌then◌else◌,
  is_some,
}
use gptshare.Pool.Message.{Plan, is_free}
use gptshare.Monitor.Types.{
  Life, Check, Code, Level, Kind, DeathType, PauseReason, Account, Status, TypedError, PollResult,
  Record, is_alive, is_dead_banned, is_ok, is_normal_expiry, is_live, is_unverified,
}

-- The new values of the row's columns; `closes` is the epoch's terminal status, its end and survival.
pub record Verdict : Type 0 where
  pub level : Level
  pub status : Life
  pub plan : Plan
  pub raw_plan : ℕ
  pub expiry : Option ℕ
  pub check : Check
  pub dead_at : Option ℕ
  pub death_type : Option DeathType
  pub survival : Option ℕ
  pub next_retry : Option ℕ
  pub paused : Bool
  pub pause_reason : Option PauseReason
  pub pending : Option (ℕ × ℕ)
  pub closes : Option (Life × ℕ × Option ℕ)

-- The columns as they are, before the result is looked at.
unfoldable pub unchanged : Level → Account → Verdict
unchanged level a = record {
  level = level;
  status = a.status;
  plan = a.plan;
  raw_plan = a.raw_plan;
  expiry = a.current_expiry;
  check = a.last_check;
  dead_at = a.dead_at;
  death_type = a.death_type;
  survival = a.survival;
  next_retry = none;
  paused = false;
  pause_reason = none;
  pending = none;
  closes = none;
}

abbrev ban_code : Code → Bool
ban_code Code.account_disabled = true
ban_code Code.account_deactivated = true
ban_code _ = false

abbrev pub is_disabled : Kind → Bool
is_disabled Kind.disabled = true
is_disabled _ = false

abbrev pub is_contract_change : Kind → Bool
is_contract_change Kind.contract_change = true
is_contract_change _ = false

abbrev pub is_authorization_required : Kind → Bool
is_authorization_required Kind.authorization_required = true
is_authorization_required _ = false

abbrev pub is_credential_revoked : Kind → Bool
is_credential_revoked Kind.credential_revoked = true
is_credential_revoked _ = false

unfoldable pub is_stable_ban_candidate : TypedError → Bool
is_stable_ban_candidate t = t.banned_candidate && ban_code t.evidence_code && is_disabled t.kind

unfoldable pub is_credential_failure : TypedError → Bool
is_credential_failure t = is_authorization_required t.kind || is_credential_revoked t.kind

unfoldable pub retry_delay : ℕ → TypedError → ℕ
retry_delay min_interval t = if ltb min_interval t.retry_after then t.retry_after else min_interval

-- The credential's own expiry was reached.
unfoldable pub expire_normally : Record → Account → Verdict
unfolding unchanged
expire_normally r a = record (unchanged Level.live_verified a) {
  status = Life.dead_normal;
  check = Check.check_ok;
  dead_at = some r.auth_expiry;
  death_type = some DeathType.normal_death;
  paused = true;
  pause_reason = some PauseReason.on_normal_expiry;
  closes = some (Life.dead_normal, r.auth_expiry, none);
}

-- A verified answer.
unfoldable pub observe : Account → Status → Verdict
unfolding unchanged
observe a s = record (unchanged s.level a) {
  status = if is_dead_banned a.status then a.status else Life.alive;
  plan = s.plan;
  raw_plan = s.raw_plan;
  expiry = s.subscription_expiry;
  check = Check.check_ok;
}

unfoldable pub downgrade : ℕ → Account → Status → Verdict
unfolding observe
downgrade now a s = record (observe a s) {
  status = Life.dead_normal;
  dead_at = some now;
  death_type = some DeathType.normal_death;
  paused = true;
  pause_reason = some PauseReason.plan_downgraded_to_free;
  closes = some (Life.dead_normal, now, none);
}

-- Polling stops until the evidence is reviewed.
unfoldable pub suspend : Level → PauseReason → ℕ → ℕ → Account → Verdict
unfolding unchanged
suspend level reason signature now a = record (unchanged level a) {
  check = Check.contract_changed;
  paused = true;
  pause_reason = some reason;
  pending = some (signature, now);
}

abbrev pending_level : Level → Level
pending_level Level.contract_verified = Level.contract_verified
pending_level _ = Level.unverified

unfoldable pub judge_status : ℕ → ℕ → Account → Status → Verdict
judge_status now signature a s =
    if is_live s.level
    then if is_free s.plan && not (is_dead_banned a.status) then downgrade now a s else observe a s
    else suspend (pending_level s.level) PauseReason.unverified_active_result signature now a

unfoldable pub ban : Level → ℕ → Record → Account → Verdict
unfolding unchanged
ban level now r a = record (unchanged level a) {
  status = Life.dead_banned;
  check = Check.check_ok;
  dead_at = some now;
  death_type = some DeathType.abnormal_ban;
  survival = some (now - r.import_time);
  paused = true;
  pause_reason = some PauseReason.on_abnormal_ban;
  closes = some (Life.dead_banned, now, some (now - r.import_time));
}

unfoldable pub reauthorize : Level → Account → Verdict
unfolding unchanged
reauthorize level a = record (unchanged level a) {
  check = Check.reauthorization_required;
  paused = true;
  pause_reason = some PauseReason.on_reauthorization;
}

unfoldable pub retry_at : ℕ → Level → Account → Verdict
unfolding unchanged
retry_at t level a = record (unchanged level a) { check = Check.check_error; next_retry = some t }

unfoldable pub judge_error : ℕ → ℕ → ℕ → Level → Record → Account → TypedError → Verdict
judge_error min_interval now signature registry r a t =
    if is_stable_ban_candidate t
    then if is_unverified registry
      then suspend t.level PauseReason.evidence_signature_rejected signature now a
      else ban t.level now r a
    else if is_unverified t.level || is_contract_change t.kind
    then suspend t.level PauseReason.on_contract_changed signature now a
    else if is_credential_failure t
    then reauthorize t.level a
    else retry_at (now + retry_delay min_interval t) t.level a

-- A result with neither a status nor an error is none: the source dereferences a nil pointer there.
unfoldable pub judge_evidence :
    ℕ → ℕ → ℕ → Level → Record → Account → Option TypedError → Option Status → Option Verdict
judge_evidence min_interval now signature registry r a none (some s) =
    some (judge_status now signature a s)
judge_evidence min_interval now signature registry r a (some t) s =
    some (judge_error min_interval now signature registry r a t)
judge_evidence min_interval now signature registry r a none none = none

unfoldable pub judge : ℕ → ℕ → ℕ → Level → Record → Account → PollResult → Option Verdict
judge min_interval now signature registry r a p =
    if is_some p.status && is_normal_expiry p.code
    then some (expire_normally r a)
    else judge_evidence min_interval now signature registry r a p.typed p.status

-- nextDue: the retry, or the next round of an account that is alive and answered.
unfoldable pub next_due : ℕ → Verdict → Option ℕ
next_due due v = elim v.next_retry [
  | some t ↦ some t
  | none ↦ if is_ok v.check && is_alive v.status then some due else none
]

-- nullableError
abbrev pub nullable_error : Check → Code → Option Code
nullable_error check code = if is_ok check then none else some code

-- fillOnlyEmailProjection: the email and the label to fill in.
unfoldable pub fill_only_email : Account → Record → PollResult → Option ℕ × Option ℕ
fill_only_email a r p = elim p.status [
  | none ↦ (none, none)
  | some s ↦
      if is_some p.typed
        || not (is_live s.level)
        || s.email == 0
        || (not (a.email == 0) && not (a.email == s.email))
      then (none, none)
      else (
        if a.email == 0 then some s.email else none,
        if a.label == 0 || a.label == r.provider_id then some s.email else none,
      )
]
