-- ===== src/Monitor/Poll.antt =====
-- One poll of an account: pollWithRetry, the loop of pollCredentialSnapshot around FetchStatus,
-- retryPause and internalPollError of internal/monitor/service.go. What the upstream service, the
-- other writers of the table and a cancelled context answer is given for each attempt.
use mathlib.Core.Bool.{false≢true}
use native.Mathlib.Nat.{one-le-pow}
use gptshare.Base.{
  ℕ, zero, suc, ◌+◌, ◌*◌, ◌-◌, ◌^◌, ◌≤◌, ◌<◌, ◌≡◌, refl, sym, ◌∙◌, max, min, Bool, true, false,
  ◌&&◌, Option, none, some, ◌==◌, if◌then◌else◌, arith, Bool-cases, ◌⊎◌, inl, inr,
}
use gptshare.Time.{seconds}
use gptshare.Monitor.Types.{Code, Level, Kind, Status, TypedError, PollResult, Record}

-- 1<<attempt seconds, at least what the server asks for, at most 30 seconds.
unfoldable pub pause_delay : ℕ → ℕ → ℕ
pause_delay retry_after attempt = min (max (2 ^ attempt * seconds 1) retry_after) (seconds 30)

-- An attempt's answer: a status, or an error with whether the pause after it went by.
pub data Reply : Type 0 where
  replied : Status → Reply
  refused : TypedError → Bool → Reply

-- The loop of FetchStatus with `left` retries left; the answer and how many calls were made.
unfoldable pub fetch_status : ℕ → ℕ → (ℕ → Reply) → (Status × ℕ) ⊎ (TypedError × ℕ)
fetch_status zero i reply = elim (reply i) [
  | replied s ↦ inl (s, suc i)
  | refused t waited ↦ inr (t, suc i)
]
fetch_status (suc left) i reply =
    let rest = fetch_status left (suc i) reply in
    elim (reply i) [
      | replied s ↦ inl (s, suc i)
      | refused t waited ↦ if t.retryable && waited then rest else inr (t, suc i)
    ]

-- The calls are at most one more than the retries, the first status ends them, and an error that is
-- returned was not retryable, or its pause was cut off, or no retry was left.
abbrev pub Fetched : ℕ → ℕ → (ℕ → Reply) → (Status × ℕ) ⊎ (TypedError × ℕ) → Type 0
Fetched left i reply (inl (s, calls)) =
    (calls ≤ i + left + 1) × (i < calls) × (reply (calls - 1) ≡ replied s)
Fetched left i reply (inr (t, calls)) =
    (calls ≤ i + left + 1)
    × (i < calls)
    × ((waited : Bool) × (reply (calls - 1) ≡ refused t waited)
        × ((t.retryable && waited) ≡ true → calls ≡ i + left + 1))

widen :
    (left i : ℕ) (reply : ℕ → Reply) (r : (Status × ℕ) ⊎ (TypedError × ℕ))
    → Fetched left (suc i) reply r
    → Fetched (suc left) i reply r
widen left i reply (inl (s, calls)) f = (omega (arith, f.0), omega (arith, f.1), f.2)
widen left i reply (inr (t, calls)) f =
    (omega (arith, f.0), omega (arith, f.1), (f.2.0, f.2.1, λ e. omega (arith, f.2.2 e)))

Reply-cases :
    (r : Reply)
    → ((s : Status) × (r ≡ replied s))
      ⊎ ((t : TypedError) × (waited : Bool) × (r ≡ refused t waited))
Reply-cases (replied s) = inl (s, refl)
Reply-cases (refused t waited) = inr (t, waited, refl)

last_call : (i : ℕ) (reply : ℕ → Reply) {r : Reply} → reply i ≡ r → reply (suc i - 1) ≡ r
last_call i reply h = rw (pred_suc i) h
  where
    pred_suc : (i : ℕ) → suc i - 1 ≡ i
    pred_suc i = omega arith

-- FetchStatus is called once more than there are retries at most; a status that is returned is that
-- of the last call; and an error that is returned is that of the last call, which was the last
-- allowed one when the error could be retried and the pause was not cut off.
pub fetch_status-Fetched :
    (left i : ℕ) (reply : ℕ → Reply) → Fetched left i reply (fetch_status left i reply)
unfolding fetch_status
fetch_status-Fetched zero i reply = elim (Reply-cases (reply i)) [
  | inl (s, e) ↦ rw (e, fetch_status) (omega arith, omega arith, last_call i reply e)
  | inr (t, waited, e) ↦
      rw (e, fetch_status)
        (omega arith, omega arith, (waited, last_call i reply e, λ _. omega arith))
]
fetch_status-Fetched (suc left) i reply = elim (Reply-cases (reply i)) [
  | inl (s, e) ↦ rw (e, fetch_status) (omega arith, omega arith, last_call i reply e)
  | inr (t, waited, e) ↦ elim (Bool-cases (t.retryable && waited)) [
    | inl b ↦
        rw (e, fetch_status, b)
          (widen left i reply (fetch_status left (suc i) reply)
            (fetch_status-Fetched left (suc i) reply))
    | inr b ↦
        rw (e, fetch_status, b)
          (
            omega arith,
            omega arith,
            (waited, last_call i reply e, λ more. absurd (false≢true (sym b ∙ more))),
          )
  ]
]

-- A pause lasts from one second to thirty.
pub pause_delay-bounds :
    (retry_after attempt : ℕ)
    → (seconds 1 ≤ pause_delay retry_after attempt)
      × (pause_delay retry_after attempt ≤ seconds 30)
      × (seconds 1 ≤ retry_after
          → retry_after ≤ seconds 30
          → retry_after ≤ pause_delay retry_after attempt)
unfolding pause_delay
pause_delay-bounds retry_after attempt =
    let power = one-le-pow attempt 2 (omega arith) in
    (omega (arith, power), omega arith, λ low high. omega (arith, high))

-- The endpoint local_monitor.
abbrev local_monitor : ℕ
local_monitor = 3

unfoldable pub internal_poll_error : Code → PollResult
internal_poll_error code = record {
  status = none;
  typed = some (record {
    kind = Kind.upstream_transient;
    evidence_code = code;
    level = Level.unverified;
    retryable = false;
    retry_after = 0;
    banned_candidate = false;
  });
  endpoint = local_monitor;
  code = code;
  generation = 0;
  reload_credential = false;
  skipped = false;
}

unfoldable pub changed_during_poll : ℕ → PollResult
changed_during_poll generation = record {
  status = none;
  typed = none;
  endpoint = 0;
  code = Code.credential_changed_during_poll;
  generation = generation;
  reload_credential = false;
  skipped = true;
}

abbrev pub or_generation : ℕ → ℕ → ℕ
or_generation g default = if g == 0 then default else g

-- The record after a result that asks to reload the credentials: a result that is final, or the
-- record to poll again.
unfoldable pub reload : Record → PollResult → Option Record → PollResult ⊎ Record
reload record_ outcome none = inl (internal_poll_error Code.credential_reload)
reload record_ outcome (some latest) =
    if latest.generation == or_generation outcome.generation record_.generation
    then inl (record outcome { reload_credential = false })
    else inr latest

abbrev pub follow : PollResult ⊎ Record → (Record → PollResult) → PollResult
follow (inl final) next = final
follow (inr latest) next = next latest

-- pollWithRetry with `left` attempts left: `poll i` is the i-th pollCredentialSnapshot and `load i` the
-- snapshot that is loaded after it.
unfoldable pub poll_attempts :
    ℕ → ℕ → (ℕ → Record → PollResult) → (ℕ → Record → Option Record) → Record → PollResult
poll_attempts zero i poll load r = changed_during_poll r.generation
poll_attempts (suc left) i poll load r =
    let outcome = poll i r in
    if outcome.reload_credential
    then follow (reload r outcome (load i r)) (poll_attempts left (suc i) poll load)
    else record outcome { generation = or_generation outcome.generation r.generation }

abbrev pub poll_with_retry :
    (ℕ → Record → PollResult) → (ℕ → Record → Option Record) → Record → PollResult
poll_with_retry = poll_attempts 2 0

abbrev reloads : PollResult ⊎ Record → Bool
reloads (inl final) = final.reload_credential
reloads (inr latest) = false

reload-final :
    (r : Record) (outcome : PollResult) (o : Option Record) → reloads (reload r outcome o) ≡ false
unfolding reload internal_poll_error
reload-final r outcome none = refl
reload-final r outcome (some latest) =
    elim (Bool-cases (latest.generation == or_generation outcome.generation r.generation)) [
      | inl e ↦ rw e refl
      | inr e ↦ rw e refl
    ]

again_final :
    (x : PollResult ⊎ Record) (next : Record → PollResult)
    → reloads x ≡ false
    → ((r : Record) → (next r).reload_credential ≡ false)
    → (follow x next).reload_credential ≡ false
again_final (inl final) next h rest = h
again_final (inr latest) next h rest = rest latest

either :
    (b : Bool) (x y : PollResult)
    → x.reload_credential ≡ false
    → (b ≡ false → y.reload_credential ≡ false)
    → (if b then x else y).reload_credential ≡ false
either true x y hx hy = hx
either false x y hx hy = hy refl

-- Whatever the polls and the reloads give, the result does not ask for another reload.
pub poll_attempts-settle :
    (left i : ℕ) (poll : ℕ → Record → PollResult) (load : ℕ → Record → Option Record) (r : Record)
    → (poll_attempts left i poll load r).reload_credential ≡ false
unfolding poll_attempts changed_during_poll
poll_attempts-settle zero i poll load r = refl
poll_attempts-settle (suc left) i poll load r =
    either (poll i r).reload_credential _ _
      (again_final (reload r (poll i r) (load i r)) (poll_attempts left (suc i) poll load)
        (reload-final r (poll i r) (load i r)) (poll_attempts-settle left (suc i) poll load))
      (λ e. e)
