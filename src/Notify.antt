-- ===== src/Notify.antt =====
-- Deliveries of alerts: Consumer.ProcessOnce of internal/notify/consumer.go over the columns of
-- alert_events that it reads and decides by. A number stands for each error code and event.
use gptshare.Base.{
  ℕ, suc, ◌+◌, ◌*◌, ◌-◌, ◌≤◌, ◌≡◌, refl, sym, subst, ◌≢◌, Bool, true, false, ◌&&◌, ◌||◌, Option,
  none, some, List, [], ◌∷◌, leb, ltb, ◌==◌, if◌then◌else◌, All, All-map, All-both, All-update,
  update_where, find_where, arith, Bool-cases, inl, inr,
}
use mathlib.Core.Option.{some-injective}
use gptshare.Time.{seconds, text_key}
use gptshare.Monitor.Sound.{find_where-All}

pub data Delivery : Type 0 where
  pending processing failed recorded_no_channel : Delivery

pub record Alert : Type 0 where
  pub id : ℕ
  pub delivery_status : Delivery
  pub attempts : ℕ
  pub next_attempt_at : Option ℕ
  pub claimed_at : Option ℕ
  pub last_error : Option ℕ

abbrev pub max_attempts : ℕ
max_attempts = 3

abbrev pub claim_timeout : ℕ
claim_timeout = seconds 300

abbrev pub consumer_backoff : ℕ
consumer_backoff = seconds 2

-- consumer_interrupted
abbrev pub interrupted : ℕ
interrupted = 1

abbrev pub is_processing : Delivery → Bool
is_processing Delivery.processing = true
is_processing _ = false

abbrev pub is_pending : Delivery → Bool
is_pending Delivery.pending = true
is_pending _ = false

abbrev pub is_failed : Delivery → Bool
is_failed Delivery.failed = true
is_failed _ = false

abbrev claimed_before : ℕ → Option ℕ → Bool
claimed_before limit none = false
claimed_before limit (some t) = ltb (text_key t) (text_key limit)

-- A claim that was not finished within five minutes.
abbrev pub stale_claim : ℕ → Alert → Bool
stale_claim now a =
    is_processing a.delivery_status && claimed_before (now - claim_timeout) a.claimed_at

abbrev pub interrupted_row : ℕ → Alert → Alert
interrupted_row now a = record a {
  delivery_status = Delivery.failed;
  next_attempt_at = some now;
  last_error = some interrupted;
  claimed_at = none;
}

abbrev reached : ℕ → Option ℕ → Bool
reached now none = true
reached now (some t) = leb (text_key t) (text_key now)

abbrev pub claimable : ℕ → Alert → Bool
claimable now a =
    (is_pending a.delivery_status || (is_failed a.delivery_status && ltb a.attempts max_attempts))
    && reached now a.next_attempt_at

abbrev pub claim_open : ℕ → Alert → Bool
claim_open id a = a.id == id && (is_pending a.delivery_status || is_failed a.delivery_status)

abbrev pub claimed_row : ℕ → Alert → Alert
claimed_row now a = record a {
  delivery_status = Delivery.processing;
  attempts = suc a.attempts;
  claimed_at = some now;
}

abbrev pub in_process : ℕ → Alert → Bool
in_process id a = a.id == id && is_processing a.delivery_status

-- The time of the next attempt is that of the attempts counted by the claim; none after the last one.
abbrev pub refused_row : ℕ → ℕ → Alert → Alert
refused_row now code a = record a {
  delivery_status = Delivery.failed;
  next_attempt_at =
      if ltb a.attempts max_attempts then some (now + consumer_backoff * a.attempts) else none;
  claimed_at = none;
  last_error = some code;
}

abbrev pub recorded_row : Alert → Alert
recorded_row a = record a {
  delivery_status = Delivery.recorded_no_channel;
  next_attempt_at = none;
  claimed_at = none;
  last_error = none;
}

-- What Notifier.Send returns: none, or the code of its error.
unfoldable pub finish : ℕ → ℕ → Option ℕ → List Alert → List Alert
finish now id none rows = update_where (in_process id) recorded_row rows
finish now id (some code) rows = update_where (in_process id) (refused_row now code) rows

unfoldable pub deliver : (ℕ → Option ℕ) → ℕ → Option Alert → List Alert → List Alert
deliver send now none rows = rows
deliver send now (some a) rows =
    finish now a.id (send a.id) (update_where (claim_open a.id) (claimed_row now) rows)

-- The alert of the least id comes first; rows come in the order of their ids.
unfoldable pub process_once : (ℕ → Option ℕ) → ℕ → List Alert → List Alert
process_once send now rows =
    let recovered = update_where (stale_claim now) (interrupted_row now) rows in
    deliver send now (find_where (claimable now) recovered) recovered

-- An alert is attempted three times at most, and a pending one was not attempted.
pub record Limited (a : Alert) : Type 0 where
  pub most : a.attempts ≤ max_attempts
  pub first : is_pending a.delivery_status ≡ true → a.attempts ≡ 0

-- The primary key of alert_events.
abbrev pub Distinct : List Alert → Type 0
Distinct [] = Unit {0}
Distinct (a ∷ rows) = All (λ b. b.id ≢ a.id) rows × Distinct rows

Distinct-update :
    (p : Alert → Bool) (f : Alert → Alert)
    → ((a : Alert) → (f a).id ≡ a.id)
    → (rows : List Alert) → Distinct rows
    → Distinct (update_where p f rows)
Distinct-update p f same [] d = tt
Distinct-update p f same (a ∷ rows) d =
    let rest = Distinct-update p f same rows d.1 in
    let apart : All (λ b. b.id ≢ a.id) (update_where p f rows) =
      All-update p f (λ b. b.id ≢ a.id) (λ b. b.id ≢ a.id) (λ b _ h. rw (same b) h) (λ b _ h. h)
        rows d.0 in
    elim (Bool-cases (p a)) [ inl e ↦ rw (e, same a) (apart, rest) | inr e ↦ rw e (apart, rest) ]

-- The row that is found is the only one of its id, and meets the test.
found-row :
    (p : Alert → Bool) (rows : List Alert) (a : Alert)
    → Distinct rows
    → find_where p rows ≡ some a
    → (p a ≡ true) × All (λ x. x.id ≡ a.id → x ≡ a) rows
found-row p [] a d h = cc
found-row p (x ∷ rows) a d h = elim (Bool-cases (p x)) [
  | inl e ↦
      (let same : x ≡ a = some-injective x a (rw e at h) in
        subst (λ y. (p y ≡ true) × All (λ z. z.id ≡ y.id → z ≡ y) (x ∷ rows)) same
          (e, (λ _. refl, All-map _ _ (λ b other i. absurd (other i)) rows d.0)))
  | inr e ↦
      (let (meets, only) = found-row p rows a d.1 (rw e at h) in
        let other : a.id ≢ x.id = find_where-All p (λ b. b.id ≢ x.id) rows a d.0 (rw e at h) in
        (meets, (λ i. absurd (other (sym i)), only)))
]

stale-Limited : (now : ℕ) (a : Alert) → Limited a → Limited (interrupted_row now a)
stale-Limited now a l = record { most = l.most; first = λ h. absurd (ground (arith, h)) }

claimed-Limited :
    (now : ℕ) (a : Alert) → claimable now a ≡ true → Limited a → Limited (claimed_row now a)
claimed-Limited now a c l = record {
  most = ground (arith, c, l.most, l.first);
  first = λ h. absurd (ground (arith, h));
}

finish-Limited :
    (now id : ℕ) (answer : Option ℕ) (rows : List Alert)
    → All Limited rows
    → All Limited (finish now id answer rows)
unfolding finish
finish-Limited now id none rows =
    All-update (in_process id) recorded_row Limited Limited
      (λ a e l. record { most = l.most; first = λ h. absurd (ground (arith, h)) }) (λ a e l. l) rows
finish-Limited now id (some code) rows =
    All-update (in_process id) (refused_row now code) Limited Limited
      (λ a e l. record { most = l.most; first = λ h. absurd (ground (arith, h)) }) (λ a e l. l) rows

finish-Distinct :
    (now id : ℕ) (answer : Option ℕ) (rows : List Alert)
    → Distinct rows
    → Distinct (finish now id answer rows)
unfolding finish
finish-Distinct now id none rows = Distinct-update (in_process id) recorded_row (λ a. refl) rows
finish-Distinct now id (some code) rows =
    Distinct-update (in_process id) (refused_row now code) (λ a. refl) rows

deliver-Limited :
    (send : ℕ → Option ℕ) (now : ℕ) (found : Option Alert) (rows : List Alert)
    → find_where (claimable now) rows ≡ found
    → Distinct rows
    → All Limited rows
    → Distinct (deliver send now found rows) × All Limited (deliver send now found rows)
unfolding deliver
deliver-Limited send now none rows h d l = (d, l)
deliver-Limited send now (some a) rows h d l =
    let (meets, only) = found-row (claimable now) rows a d h in
    let both =
      All-both (λ x. x.id ≡ a.id → x ≡ a) Limited (λ x. (x.id ≡ a.id → x ≡ a) × Limited x)
        (λ x o l. (o, l)) rows only l in
    let claimed = update_where (claim_open a.id) (claimed_row now) rows in
    (
      finish-Distinct now a.id (send a.id) claimed
          (Distinct-update (claim_open a.id) (claimed_row now) (λ x. refl) rows d),
      finish-Limited now a.id (send a.id) claimed (
          All-update (claim_open a.id) (claimed_row now) (λ x. (x.id ≡ a.id → x ≡ a) × Limited x)
            Limited
            (λ x e q.
              claimed-Limited now x
                (subst (λ y. claimable now y ≡ true) (sym (q.0 (ground (arith, e)))) meets) q.1)
            (λ x e q. q.1) rows both),
    )

-- A turn of the consumer, whatever the notifier returns, keeps every alert at three attempts at
-- most, where the ids of the alerts are distinct.
pub process_once-Limited :
    (send : ℕ → Option ℕ) (now : ℕ) (rows : List Alert)
    → Distinct rows
    → All Limited rows
    → Distinct (process_once send now rows) × All Limited (process_once send now rows)
unfolding process_once
process_once-Limited send now rows d l =
    let recovered = update_where (stale_claim now) (interrupted_row now) rows in
    deliver-Limited send now (find_where (claimable now) recovered) recovered refl
      (Distinct-update (stale_claim now) (interrupted_row now) (λ a. refl) rows d)
      (All-update (stale_claim now) (interrupted_row now) Limited Limited
        (λ a e x. stale-Limited now a x) (λ a e x. x) rows l)
