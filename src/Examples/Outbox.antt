-- ===== src/Examples/Outbox.antt =====
-- Deliveries of the outbox, polls and alerts.
use mathlib.Core.List.{Memᴰ}
use gptshare.Base.{
  ℕ, ◌+◌, ◌*◌, ◌≤◌, ◌≡◌, refl, true, false, Option, none, some, List, [], ◌∷◌, ◌==◌, if◌then◌else◌,
  All, arith, count_where,
}
use gptshare.Time.{day, seconds, text_key}
use gptshare.Pool.Types.{MonitorStatus, AccountStatus, Account}
use gptshare.Pool.Message.{Plan, Event, validate}
use gptshare.Pool.Events.{Disposition, Feed, log_event}
use gptshare.Delivery.{
  Entry, Stage, Answer, Line, accepted, permanent, endpoint_protocol_invalid, open_entry, due, run,
}
use gptshare.Delivery.Drain.{Unique, Ready, run-drains}
use gptshare.Delivery.Tidy.{Tidy, run-Tidy}
use gptshare.Delivery.Chain.{direct_sink, http_sink, redelivered, archived_event}
use gptshare.Monitor.Types.{Code, Level, Kind, Status, TypedError}
use gptshare.Monitor.Poll.{Reply, replied, refused, Fetched, fetch_status, fetch_status-Fetched}
use gptshare.Monitor.Rounds.Claims.{
  Running, Rounds, begins_round, begins_refresh, Turns, still, turned, idle_rounds, claim_round,
  put, Turns-exclusive,
}
use gptshare.Notify.{Alert, Delivery, Limited, Distinct, process_once, process_once-Limited}
use gptshare.Examples.Shop.{noon, account, shop}
use gptshare.Examples.Events.{feed, ban, banned_feed, feed-banned}

abbrev entry : ℕ → ℕ → Option Event → Entry
entry id created payload = record {
  event_id = id;
  payload = payload;
  delivery_status = Stage.pending;
  attempts = 0;
  next_attempt_at = some created;
  created_at = created;
  last_error = none;
  delivered_at = none;
}

-- A sink that keeps the ids of the events it is given.
abbrev keeping_sink : Event → List ℕ → List ℕ × Answer
keeping_sink e s = (e.event_id.value ∷ s, accepted)

-- Two events, the second one with a payload that is no event.
abbrev line : Line (List ℕ)
line = record { queue = entry 1 (99 * day) (some ban) ∷ entry 2 (98 * day) none ∷ []; state = [] }

line-Unique : Unique line.queue
line-Unique id = ground arith

line-Ready : Ready line.queue noon
unfolding due text_key
line-Ready = ((λ _. refl), ((λ _. refl), tt))

run-drains_example : count_where open_entry (run keeping_sink (noon ∷ noon ∷ []) line).queue ≡ 0
run-drains_example =
    run-drains keeping_sink (noon ∷ noon ∷ []) line (λ e s. refl) line-Unique
      (line-Ready, (line-Ready, tt)) (omega arith)

entry-Tidy :
    (id created : ℕ) (payload : Option Event)
    → created ≤ noon
    → Tidy noon (entry id created payload)
entry-Tidy id created payload h = record {
  idle = refl;
  delivered = λ e. absurd (ground arith);
  failed = λ e. absurd (ground arith);
  again = λ e. ground (arith, h);
}

run-Tidy_example :
    Unique (run keeping_sink (noon ∷ []) line).queue
    × All (Tidy noon) (run keeping_sink (noon ∷ []) line).queue
run-Tidy_example =
    run-Tidy keeping_sink noon (noon ∷ []) line (omega arith, tt) line-Unique
      (
        entry-Tidy 1 (99 * day) (some ban) (omega arith),
        (entry-Tidy 2 (98 * day) none (omega arith), tt),
      )

redelivered_example :
    (direct_sink true none (noon + day) ban banned_feed.0 ≡ (banned_feed.0, accepted))
    × (http_sink true none (noon + day) ban banned_feed.0 ≡ (banned_feed.0, accepted))
redelivered_example = redelivered true none (noon + day) noon ban feed feed-banned

-- Account 2 was archived before the event came.
abbrev retired_account : Account
retired_account = record (account 2 0 MonitorStatus.alive AccountStatus.disabled) {
  archived_at = some (98 * day);
}

abbrev retired_feed : Feed
retired_feed = record { db = record shop { accounts = retired_account ∷ [] }; processed = [] }

ban-valid : validate ban ≡ true
unfolding validate
ban-valid = refl

abbrev ignoring_feed : Feed
ignoring_feed = record retired_feed { processed = log_event ban Disposition.ignored_archived [] }

archived_event_example :
    (direct_sink true none noon ban retired_feed ≡ (ignoring_feed, accepted))
    × (http_sink true none noon ban retired_feed
        ≡ (ignoring_feed, permanent endpoint_protocol_invalid))
archived_event_example =
    archived_event true none noon ban retired_feed retired_account ban-valid refl refl refl refl

abbrev busy_error : TypedError
busy_error = record {
  kind = Kind.rate_limited;
  evidence_code = Code.http_403;
  level = Level.unverified;
  retryable = true;
  retry_after = seconds 2;
  banned_candidate = false;
}

abbrev plus_status : Status
plus_status = record {
  email = 1;
  raw_plan = 2;
  plan = Plan.plus;
  subscription_expiry = some (400 * day);
  level = Level.live_verified;
}

-- Two refusals, and then a status.
abbrev replies : ℕ → Reply
replies i = if i == 2 then replied plus_status else refused busy_error true

fetch_status-Fetched_example : Fetched 2 0 replies (fetch_status 2 0 replies)
fetch_status-Fetched_example = fetch_status-Fetched 2 0 replies

-- A round over the accounts 1 and 2 while account 3 is refreshed by hand.
abbrev round_of : Running
round_of = record { run = 1; claimed = 1 ∷ 2 ∷ [] }

abbrev both_running : Rounds
both_running = record {
  active = put 3 2 (put 2 1 (put 1 1 (λ k. 0)));
  running = record { run = 2; claimed = 3 ∷ [] } ∷ round_of ∷ [];
  next_run = 3;
}

both-Turns : Turns idle_rounds both_running
unfolding claim_round
both-Turns = turned (turned still (begins_round idle_rounds (1 ∷ 2 ∷ []))) (begins_refresh _ 3 refl)

Turns-exclusive_example : round_of.run ≡ round_of.run
Turns-exclusive_example =
    Turns-exclusive round_of round_of 2 both-Turns (Memᴰ.tail (Memᴰ.head refl))
      (Memᴰ.tail (Memᴰ.head refl)) (Memᴰ.tail (Memᴰ.head refl)) (Memᴰ.tail (Memᴰ.head refl))

abbrev alert : ℕ → Delivery → ℕ → Alert
alert id status attempts = record {
  id = id;
  delivery_status = status;
  attempts = attempts;
  next_attempt_at = none;
  claimed_at = none;
  last_error = none;
}

abbrev alerts : List Alert
alerts = alert 1 Delivery.failed 2 ∷ alert 2 Delivery.pending 0 ∷ []

process_once-Limited_example :
    Distinct (process_once (λ id. some 5) noon alerts)
    × All Limited (process_once (λ id. some 5) noon alerts)
process_once-Limited_example =
    process_once-Limited (λ id. some 5) noon alerts (ground arith)
      (
        record { most = omega arith; first = λ e. absurd (ground arith) },
        (record { most = omega arith; first = λ e. refl }, tt),
      )
