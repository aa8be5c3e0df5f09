-- ===== src/Delivery/Tidy.antt =====
-- What the rows of allocation_account_outbox show between two ticks of Run.
use gptshare.Base.{
  ℕ, ◌≤◌, ◌+◌, ◌≡◌, refl, Bool, true, false, ◌&&◌, Option, none, some, List, [], ◌∷◌, leb, leb→le,
  ◌==◌, All, is_some, is_none, arith, Bool-cases, Option-cases, inl, inr,
}
use gptshare.Time.{seconds, unix}
use gptshare.Time.Order.{text_key-later}
use gptshare.Pool.Message.{Event}
use gptshare.Delivery.{
  Entry, Stage, Answer, Line, accepted, unavailable, permanent, is_processing, open_entry, reached,
  due, next_due, claim_entry, settle_entry, ask, deliver_or_stay, run,
}
use gptshare.Delivery.Queue.{retry_delay-bounds}
use gptshare.Delivery.Drain.{Unique, settled, settled-Unique, stays, moves}

abbrev pub is_delivered : Stage → Bool
is_delivered Stage.delivered = true
is_delivered _ = false

abbrev pub is_failed : Stage → Bool
is_failed Stage.failed = true
is_failed _ = false

abbrev pub by_then : ℕ → Option ℕ → Bool
by_then limit none = true
by_then limit (some t) = leb t limit

-- No row is being delivered; a delivered row has its time and no error, a failed row has its error,
-- neither is due again; and an open row is due five minutes after `last` at the latest.
pub record Tidy (last : ℕ) (e : Entry) : Type 0 where
  pub idle : is_processing e.delivery_status ≡ false
  pub delivered :
      is_delivered e.delivery_status ≡ true
      → (is_some e.delivered_at ≡ true)
        × (is_none e.last_error ≡ true)
        × (is_none e.next_attempt_at ≡ true)
  pub failed :
      is_failed e.delivery_status ≡ true
      → (is_some e.last_error ≡ true) × (is_none e.next_attempt_at ≡ true)
  pub again : open_entry e ≡ true → by_then (last + seconds 300) e.next_attempt_at ≡ true

settle_entry-Tidy :
    (last now n : ℕ) (a : Answer) (x : Entry) → now ≤ last → Tidy last (settle_entry now n a x)
settle_entry-Tidy last now n accepted x h = record {
  idle = refl;
  delivered = λ _. (refl, refl, refl);
  failed = λ f. absurd (ground arith);
  again = λ o. absurd (ground arith);
}
settle_entry-Tidy last now n (permanent code) x h = record {
  idle = refl;
  delivered = λ f. absurd (ground arith);
  failed = λ _. (refl, refl);
  again = λ o. absurd (ground arith);
}
settle_entry-Tidy last now n unavailable x h = record {
  idle = refl;
  delivered = λ f. absurd (ground arith);
  failed = λ f. absurd (ground arith);
  again = λ _. ground (arith, retry_delay-bounds n n, h);
}

settled-Tidy :
    (last now : ℕ) (e : Entry) (a : Answer) (q : List Entry)
    → now ≤ last
    → All (Tidy last) q
    → All (Tidy last) (settled now e a q)
settled-Tidy last now e a [] h t = tt
settled-Tidy last now e a (x ∷ q) h t =
    let rest = settled-Tidy last now e a q h t.1 in
    elim (Bool-cases (x.event_id == e.event_id)) [
      | inr y ↦ rw (y, y) (t.0, rest)
      | inl y ↦ elim (Bool-cases (open_entry x)) [
        | inl o ↦ rw (y, o, y) (settle_entry-Tidy last now e.attempts a (claim_entry x) h, rest)
        | inr o ↦ rw (y, o, y) (settle_entry-Tidy last now e.attempts a x h, rest)
      ]
    ]

module _ {ι} {State : Type ι} (sink : Event → State → State × Answer) where
  tick-Tidy :
      (last now : ℕ) (line : Line State)
      → now ≤ last
      → Unique line.queue
      → All (Tidy last) line.queue
      → Unique (deliver_or_stay sink now line).queue
        × All (Tidy last) (deliver_or_stay sink now line).queue
  tick-Tidy last now line h u t = elim (Option-cases (next_due now line.queue)) [
    | inl n ↦ rw (stays sink now line n) (u, t)
    | inr (e, n) ↦
        let answer = (ask sink e.payload line.state).1 in
        rw (moves sink now line e u n)
          (settled-Unique now e answer line.queue u, settled-Tidy last now e answer line.queue h t)
  ]

  -- Whatever the sink answers, ticks until `last` leave no row in processing, every delivered or
  -- failed row with its mark, and every open row due again five minutes after `last` at the latest.
  pub run-Tidy :
      (last : ℕ) (ticks : List ℕ) (line : Line State)
      → All (λ now. now ≤ last) ticks
      → Unique line.queue
      → All (Tidy last) line.queue
      → Unique (run sink ticks line).queue × All (Tidy last) (run sink ticks line).queue
  unfolding run
  run-Tidy last [] line h u t = (u, t)
  run-Tidy last (now ∷ ticks) line h u t =
      let (unique, tidy) = tick-Tidy last now line h.0 u t in
      run-Tidy last ticks (deliver_or_stay sink now line) h.1 unique tidy

unix_mono : (s t : ℕ) → s ≤ t → unix s ≤ unix t
unfolding unix
unix_mono s t h = omega (arith, h)

-- An open row is due again in the second that follows the five minutes.
pub Tidy-due :
    (last now : ℕ) (e : Entry)
    → Tidy last e
    → unix (last + seconds 300) + 1 ≤ unix now
    → open_entry e ≡ true
    → due now e ≡ true
unfolding due
Tidy-due last now e t later o = soon e.next_attempt_at (t.again o)
  where
    soon :
        (next : Option ℕ)
        → by_then (last + seconds 300) next ≡ true
        → (open_entry e && reached now next) ≡ true
    soon none h = ground (arith, o)
    soon (some t) h =
        let earlier : unix t ≤ unix (last + seconds 300) =
          unix_mono t (last + seconds 300) (leb→le _ _ h) in
        ground (arith, o, text_key-later t now (omega (arith, earlier, later)))
