-- ===== src/Delivery.antt =====
-- The consumer of the table allocation_account_outbox (migrations/0007_allocation_account_outbox.sql):
-- Consumer and HTTPSink of internal/allocationsync/outbox.go. The columns account_id,
-- account_version, event_type and updated_at, which it does not read, are left out; a number stands
-- for an event_id and orders as its text does.
pub mod Queue
pub mod Drain
pub mod Tidy
pub mod Chain
use gptshare.Base.{
  ℕ, zero, suc, ◌+◌, ◌*◌, Bool, true, false, not, ◌&&◌, ◌||◌, Option, none, some, List, [], ◌∷◌,
  leb, ltb, ◌==◌, if◌then◌else◌, update_where, count_where,
}
use gptshare.Time.{seconds, text_key}
use gptshare.Pool.Candidate.{lex_leb}
use gptshare.Pool.Message.{Event}

pub data Stage : Type 0 where
  pending retrying processing delivered failed : Stage

-- Values of last_error_code.
pub data Failure : Type 0 where
  payload_invalid endpoint_rejected_event endpoint_protocol_invalid delivery_unavailable : Failure

-- `payload` is none when the JSON text is no event.
pub record Entry : Type 0 where
  pub event_id : ℕ
  pub payload : Option Event
  pub delivery_status : Stage
  pub attempts : ℕ
  pub next_attempt_at : Option ℕ
  pub created_at : ℕ
  pub last_error : Option Failure
  pub delivered_at : Option ℕ

-- What a call of the sink says: nil, a PermanentError or another error.
pub data Answer : Type 0 where
  accepted unavailable : Answer
  permanent : Failure → Answer

abbrev pub is_open : Stage → Bool
is_open Stage.pending = true
is_open Stage.retrying = true
is_open _ = false

abbrev pub is_processing : Stage → Bool
is_processing Stage.processing = true
is_processing _ = false

abbrev pub open_entry : Entry → Bool
open_entry e = is_open e.delivery_status

abbrev pub reached : ℕ → Option ℕ → Bool
reached now none = true
reached now (some t) = leb (text_key t) (text_key now)

unfoldable pub due : ℕ → Entry → Bool
due now e = open_entry e && reached now e.next_attempt_at

-- ORDER BY created_at,event_id
abbrev pub order_of : Entry → List ℕ
order_of e = text_key e.created_at ∷ e.event_id ∷ []

abbrev pub sooner : Entry → Option Entry → Option Entry
sooner e none = some e
sooner e (some d) = if lex_leb (order_of e) (order_of d) then some e else some d

-- LIMIT 1 over the rows that are due.
unfoldable pub next_due : ℕ → List Entry → Option Entry
next_due now [] = none
next_due now (e ∷ es) = let rest = next_due now es in if due now e then sooner e rest else rest

abbrev pub this_open : ℕ → Entry → Bool
this_open id e = e.event_id == id && open_entry e

abbrev pub this : ℕ → Entry → Bool
this id e = e.event_id == id

abbrev pub claim_entry : Entry → Entry
claim_entry e = record e { delivery_status = Stage.processing; attempts = suc e.attempts }

-- retryDelay: 1s, 5s, 30s, 2min and then 5min.
unfoldable pub retry_delay : ℕ → ℕ
retry_delay zero = seconds 1
retry_delay (suc zero) = seconds 5
retry_delay (suc (suc zero)) = seconds 30
retry_delay (suc (suc (suc zero))) = seconds 120
retry_delay _ = seconds 300

-- Consumer.fail
abbrev pub fail_entry : Failure → Entry → Entry
fail_entry code e = record e {
  delivery_status = Stage.failed;
  next_attempt_at = none;
  last_error = some code;
}

abbrev pub deliver_entry : ℕ → Entry → Entry
deliver_entry now e = record e {
  delivery_status = Stage.delivered;
  next_attempt_at = none;
  last_error = none;
  delivered_at = some now;
}

-- `attempts` is the number that was read before the claim.
abbrev pub retry_entry : ℕ → ℕ → Entry → Entry
retry_entry now attempts e = record e {
  delivery_status = Stage.retrying;
  next_attempt_at = some (now + retry_delay attempts);
  last_error = some delivery_unavailable;
}

abbrev pub settle_entry : ℕ → ℕ → Answer → Entry → Entry
settle_entry now attempts accepted = deliver_entry now
settle_entry now attempts (permanent code) = fail_entry code
settle_entry now attempts unavailable = retry_entry now attempts

-- The consumer's table and the state of what the sink calls.
pub record Line {ι} (State : Type ι) : Type ι where
  pub queue : List Entry
  pub state : State

module _ {ι} {State : Type ι} (sink : Event → State → State × Answer) where
  -- The answer to an entry's payload.
  unfoldable pub ask : Option Event → State → State × Answer
  ask none s = (s, permanent payload_invalid)
  ask (some e) s = sink e s

  -- deliverOne after the row has been read; the claim has to change one row.
  unfoldable pub deliver_claimed : ℕ → Entry → Line State → Option (Line State)
  deliver_claimed now e line =
      let claimed = update_where (this_open e.event_id) claim_entry line.queue in
      let answered = ask e.payload line.state in
      if count_where (this_open e.event_id) line.queue == 1
      then some (record {
        queue = update_where (this e.event_id) (settle_entry now e.attempts answered.1) claimed;
        state = answered.0;
      })
      else none

  -- deliverOne; none stands for sql.ErrNoRows.
  unfoldable pub deliver_one : ℕ → Line State → Option (Line State)
  deliver_one now line = elim (next_due now line.queue) [
    | none ↦ none
    | some e ↦ deliver_claimed now e line
  ]

  unfoldable pub deliver_or_stay : ℕ → Line State → Line State
  deliver_or_stay now line = elim (deliver_one now line) [ none ↦ line | some l ↦ l ]

  -- Ticks of Run, each with its time.
  unfoldable pub run : List ℕ → Line State → Line State
  run [] line = line
  run (now ∷ ticks) line = run ticks (deliver_or_stay now line)

-- The first statement of Run: what a crash left in processing is tried again.
abbrev pub resume : ℕ → Entry → Entry
resume now e = record e { delivery_status = Stage.retrying; next_attempt_at = some now }

unfoldable pub start {ι} : {State : Type ι} → ℕ → Line State → Line State
start now line = record line {
  queue = update_where (λ e. is_processing e.delivery_status) (resume now) line.queue;
}
