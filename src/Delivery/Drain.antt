-- ===== src/Delivery/Drain.antt =====
-- The table under deliverOne, tick by tick.
use gptshare.Base.{
  ℕ, ◌≤◌, ◌+◌, ◌-◌, ◌≡◌, refl, Bool, true, false, Option, none, some, List, [], ◌∷◌, ◌==◌, length,
  All, All-map, All-update, update_where, count_where, arith, Bool-cases, Option-cases, inl, inr,
}
use gptshare.Pool.Message.{Event}
use gptshare.Delivery.{
  Entry, Answer, Line, accepted, unavailable, permanent, open_entry, due, next_due, this_open, this,
  claim_entry, settle_entry, ask, deliver_claimed, deliver_one, deliver_or_stay, run,
}
use gptshare.Delivery.Queue.{next_due-none, next_due-Earliest}

-- The primary key of the table.
abbrev pub Unique : List Entry → Type 0
Unique q = (id : ℕ) → count_where (this id) q ≤ 1

abbrev pub settled : ℕ → Entry → Answer → List Entry → List Entry
settled now e answer q =
    update_where (this e.event_id) (settle_entry now e.attempts answer)
      (update_where (this_open e.event_id) claim_entry q)

settle_entry-id :
    (now n : ℕ) (a : Answer) (x : Entry) → (settle_entry now n a x).event_id ≡ x.event_id
settle_entry-id now n accepted x = refl
settle_entry-id now n (permanent code) x = refl
settle_entry-id now n unavailable x = refl

count-same :
    (p : Entry → Bool) (f : Entry → Entry) (id : ℕ)
    → ((x : Entry) → (f x).event_id ≡ x.event_id)
    → (q : List Entry) → count_where (this id) (update_where p f q) ≡ count_where (this id) q
count-same p f id same [] = refl
count-same p f id same (x ∷ q) = elim (Bool-cases (p x)) [
  | inl e ↦ rw (e, same x, count-same p f id same q)
  | inr e ↦ rw (e, count-same p f id same q)
]

pub settled-Unique :
    (now : ℕ) (e : Entry) (a : Answer) (q : List Entry) → Unique q → Unique (settled now e a q)
settled-Unique now e a q u id =
    rw
      (
        count-same (this e.event_id) (settle_entry now e.attempts a) id
            (settle_entry-id now e.attempts a) (update_where (this_open e.event_id) claim_entry q),
        count-same (this_open e.event_id) claim_entry id (λ x. refl) q,
      )
      (u id)

-- An answer that is final closes the entry.
abbrev pub is_final : Answer → Bool
is_final unavailable = false
is_final _ = true

settle_entry-closes :
    (now n : ℕ) (a : Answer) (x : Entry)
    → is_final a ≡ true
    → open_entry (settle_entry now n a x) ≡ false
settle_entry-closes now n accepted x h = refl
settle_entry-closes now n (permanent code) x h = refl
settle_entry-closes now n unavailable x h = cc

settled-count :
    (now : ℕ) (e : Entry) (a : Answer) (q : List Entry)
    → is_final a ≡ true
    → count_where open_entry (settled now e a q) + count_where (this_open e.event_id) q
      ≤ count_where open_entry q
settled-count now e a [] h = omega arith
settled-count now e a (x ∷ q) h = elim (Bool-cases (x.event_id == e.event_id)) [
  | inl y ↦ elim (Bool-cases (open_entry x)) [
    | inl o ↦
        rw (y, o, y, settle_entry-closes now e.attempts a (claim_entry x) h)
          (omega (arith, settled-count now e a q h))
    | inr o ↦
        rw (y, o, y, settle_entry-closes now e.attempts a x h)
          (omega (arith, settled-count now e a q h))
  ]
  | inr y ↦ rw (y, y) (omega (arith, settled-count now e a q h))
]

this_open-le : (id : ℕ) (q : List Entry) → count_where (this_open id) q ≤ count_where (this id) q
this_open-le id [] = omega arith
this_open-le id (x ∷ q) = ground (arith, this_open-le id q)

-- Open entries are due.
abbrev pub Ready : List Entry → ℕ → Type 0
Ready q now = All (λ x. open_entry x ≡ true → due now x ≡ true) q

none_open :
    (now : ℕ) (q : List Entry)
    → Ready q now
    → All (λ x. due now x ≡ false) q
    → count_where open_entry q ≡ 0
none_open now [] r d = refl
none_open now (x ∷ q) r d = ground (arith, r.0, d.0, none_open now q r.1 d.1)

-- Entries that a final answer leaves open are as they were.
settled-Ready :
    (now tick : ℕ) (e : Entry) (a : Answer) (q : List Entry)
    → is_final a ≡ true
    → Ready q tick
    → Ready (settled now e a q) tick
settled-Ready now tick e a q h r =
    All-update (this e.event_id) (settle_entry now e.attempts a)
      (λ x. open_entry x ≡ true → due tick x ≡ true) (λ x. open_entry x ≡ true → due tick x ≡ true)
      (λ x m p o. absurd (closed x o)) (λ x m p. p) _
      (All-update (this_open e.event_id) claim_entry (λ x. open_entry x ≡ true → due tick x ≡ true)
        (λ x. open_entry x ≡ true → due tick x ≡ true) (λ x m p o. absurd (ground arith))
        (λ x m p. p) q r)
  where
    closed : (x : Entry) → open_entry (settle_entry now e.attempts a x) ≡ true → ⊥
    closed x o = ground (arith, settle_entry-closes now e.attempts a x h, o)

module _ {ι} {State : Type ι} (sink : Event → State → State × Answer) where
  -- The sink never says that it is out of reach.
  abbrev pub Conclusive : Type ι
  Conclusive = (e : Event) (s : State) → is_final (sink e s).1 ≡ true

  ask-final : Conclusive → (p : Option Event) (s : State) → is_final (ask sink p s).1 ≡ true
  unfolding ask
  ask-final c none s = refl
  ask-final c (some e) s = c e s

  -- What deliverOne does to the table when there is an entry for it.
  pub deliver_one-settled :
      (now : ℕ) (line : Line State) (e : Entry)
      → Unique line.queue
      → next_due now line.queue ≡ some e
      → deliver_one sink now line
        ≡ some (record {
          queue = settled now e (ask sink e.payload line.state).1 line.queue;
          state = (ask sink e.payload line.state).0;
        })
  unfolding deliver_one deliver_claimed
  deliver_one-settled now line e u h =
      let (d, one, a) = next_due-Earliest now line.queue e h in
      let exactly : (count_where (this_open e.event_id) line.queue == 1) ≡ true =
        ground (arith, one, u e.event_id, this_open-le e.event_id line.queue) in
      rw (h, deliver_one, exactly) refl

  pub stays :
      (now : ℕ) (line : Line State)
      → next_due now line.queue ≡ none
      → deliver_or_stay sink now line ≡ line
  unfolding deliver_one deliver_or_stay
  stays now line h = rw (h, deliver_or_stay, deliver_one) refl

  pub moves :
      (now : ℕ) (line : Line State) (e : Entry)
      → Unique line.queue
      → next_due now line.queue ≡ some e
      → deliver_or_stay sink now line ≡ record {
        queue = settled now e (ask sink e.payload line.state).1 line.queue;
        state = (ask sink e.payload line.state).0;
      }
  unfolding deliver_or_stay
  moves now line e u h = rw (deliver_one-settled now line e u h, deliver_or_stay) refl

  -- A tick: the table is as it was when nothing is due, and otherwise has one open entry less.
  tick :
      (now : ℕ) (line : Line State)
      → Conclusive
      → Unique line.queue
      → Ready line.queue now
      → Unique (deliver_or_stay sink now line).queue
        × (count_where open_entry (deliver_or_stay sink now line).queue
            ≤ count_where open_entry line.queue - 1)
        × ((later : ℕ) → Ready line.queue later → Ready (deliver_or_stay sink now line).queue later)
  tick now line c u r = elim (Option-cases (next_due now line.queue)) [
    | inl n ↦
        (let empty = none_open now line.queue r (next_due-none now line.queue n) in
          rw (stays now line n) (u, omega (arith, empty), λ later x. x))
    | inr (e, n) ↦
        (let final = ask-final c e.payload line.state in
          let (d, one, a) = next_due-Earliest now line.queue e n in
          let answer = (ask sink e.payload line.state).1 in
          rw (moves now line e u n) (
            settled-Unique now e answer line.queue u,
            omega (arith, one, settled-count now e answer line.queue final),
            λ later x. settled-Ready now later e answer line.queue final x,
          ))
  ]

  -- When the sink gives a final answer to every event and all open entries are due at every tick, as
  -- many ticks as there are open entries leave none open.
  pub run-drains :
      (ticks : List ℕ) (line : Line State)
      → Conclusive
      → Unique line.queue
      → All (Ready line.queue) ticks
      → count_where open_entry line.queue ≤ length ticks
      → count_where open_entry (run sink ticks line).queue ≡ 0
  unfolding run
  run-drains [] line c u r enough = omega (arith, enough)
  run-drains (now ∷ ticks) line c u r enough =
      let (unique, less, kept) = tick now line c u r.0 in
      run-drains ticks (deliver_or_stay sink now line) c unique
        (All-map (Ready line.queue) _ kept ticks r.1) (omega (arith, less, enough))
