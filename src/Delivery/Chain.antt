-- ===== src/Delivery/Chain.antt =====
-- The outbox and the account pool together: the two sinks that the commands give to the consumer, the
-- pool's own method (cmd/vitals) and HTTPSink (cmd/server) in front of monitorAccountEventHandler of
-- allocation-service/internal/httpapi/router.go.
use gptshare.Base.{
  ℕ, ◌≡◌, refl, Bool, true, false, not, ◌||◌, Option, none, some, leb, ltb, ◌==◌, if◌then◌else◌,
  Bool-cases, inl, inr, find_where,
}
use gptshare.Pool.Types.{Account, Result, ok, err, invalid_event}
use gptshare.Pool.Message.{Event, validate}
use gptshare.Pool.Events.{
  Disposition, Feed, Outcome, provided_by, is_stale, is_archived, seen, log_event, untouched,
  apply_unseen, apply_monitor_account_event,
}
use gptshare.Pool.Events.Order.{redelivery}
use gptshare.Delivery.{
  Answer, accepted, unavailable, permanent, endpoint_rejected_event, endpoint_protocol_invalid,
}

-- What the consumer sees of a response: a transport error or an unreadable body, or the status and
-- the disposition that the body decodes to, none when it is no JSON.
pub data Response : Type 0 where
  no_response : Response
  response : ℕ → Option Disposition → Response

abbrev known_disposition : Disposition → Bool
known_disposition Disposition.ignored_archived = false
known_disposition _ = true

-- HTTPSink.ApplyMonitorAccountEvent after client.Do.
unfoldable pub read_response : Response → Answer
read_response no_response = unavailable
read_response (response status body) =
    if leb 500 status || status == 429
    then unavailable
    else if ltb status 200 || leb 300 status
    then permanent endpoint_rejected_event
    else elim body [
      | none ↦ permanent endpoint_protocol_invalid
      | some d ↦ if known_disposition d then accepted else permanent endpoint_protocol_invalid
    ]

module _ (has_keyring : Bool) (setting : Option (Option ℕ)) (now : ℕ) where
  abbrev called : Event → Feed → Result (Feed × Outcome)
  called e feed = apply_monitor_account_event has_keyring setting now e feed

  -- The pool's module as the sink.
  unfoldable pub direct_sink : Event → Feed → Feed × Answer
  direct_sink e feed = elim (called e feed) [
    | ok r ↦ (r.0, accepted)
    | err reason ↦ (feed, unavailable)
  ]

  -- monitorAccountEventHandler behind its check of the key and of the JSON body.
  unfoldable pub event_endpoint : Event → Feed → Feed × Response
  event_endpoint e feed =
      if not (validate e) then (feed, response 422 none) else elim (called e feed) [
        | ok r ↦ (r.0, response 200 (some r.1.disposition))
        | err reason ↦ (feed, response 500 none)
      ]

  unfoldable pub http_sink : Event → Feed → Feed × Answer
  http_sink e feed = let (after, answer) = event_endpoint e feed in (after, read_response answer)

  called-valid :
      (e : Event) (feed : Feed) {r : Feed × Outcome} → called e feed ≡ ok r → validate e ≡ true
  unfolding apply_monitor_account_event
  called-valid e feed {r} h = elim (Bool-cases (validate e)) [
    | inl v ↦ v
    | inr v ↦
        (let refused : ◌≡◌ {A = Result (Feed × Outcome)} (err invalid_event) (ok r) = rw v at h in
          cc)
  ]

  -- What the two sinks make of an event that the pool takes.
  sinks :
      (e : Event) (feed : Feed) {r : Feed × Outcome}
      → called e feed ≡ ok r
      → (direct_sink e feed ≡ (r.0, accepted))
        × (http_sink e feed ≡ (r.0, read_response (response 200 (some r.1.disposition))))
  unfolding direct_sink http_sink event_endpoint
  sinks e feed h =
      let valid = called-valid e feed h in
      (rw (h, direct_sink) refl, rw (valid, h, http_sink, event_endpoint) refl)

  -- An event that the pool has recorded, and whose delivery is tried again because the consumer
  -- stopped before it marked the row, is accepted by both sinks and changes nothing in the pool.
  pub redelivered :
      (earlier : ℕ) (e : Event) (feed : Feed) {r : Feed × Outcome}
      → apply_monitor_account_event has_keyring setting earlier e feed ≡ ok r
      → (direct_sink e r.0 ≡ (r.0, accepted)) × (http_sink e r.0 ≡ (r.0, accepted))
  unfolding read_response
  redelivered earlier e feed {r} h =
      sinks e r.0 (redelivery has_keyring setting earlier now e feed h)

  -- A valid new event of an archived account is recorded by the pool through either sink and
  -- changes no other table; the pool's module accepts it, but HTTPSink takes the endpoint's answer
  -- for a permanent failure of the protocol.
  pub archived_event :
      (e : Event) (feed : Feed) (a : Account)
      → validate e ≡ true
      → seen e feed.processed ≡ false
      → find_where (provided_by e) feed.db.accounts ≡ some a
      → is_stale e (some a) ≡ false
      → is_archived (some a) ≡ true
      → let after : Feed = record feed {
        processed = log_event e Disposition.ignored_archived feed.processed;
      } in
        (direct_sink e feed ≡ (after, accepted))
        × (http_sink e feed ≡ (after, permanent endpoint_protocol_invalid))
  unfolding read_response apply_monitor_account_event apply_unseen
  archived_event e feed a v u found fresh archived =
      sinks e feed
        {r = (
          record feed { processed = log_event e Disposition.ignored_archived feed.processed },
          untouched Disposition.ignored_archived,
        )}
        (rw (v, u, found, apply_unseen, fresh, archived) refl)
