-- ===== src/Delivery/Queue.antt =====
-- Which entry deliverOne takes, and what retryDelay gives.
use gptshare.Base.{
  ℕ, zero, suc, ◌≤◌, ◌≡◌, refl, subst, true, false, Option, none, some, List, [], ◌∷◌, All, All-map,
  count_where, arith, Bool-cases, inl, inr,
}
use mathlib.Core.Option.{some-injective}
use gptshare.Time.{seconds}
use gptshare.Pool.Candidate.{lex_leb}
use gptshare.Pool.Candidate.Choice.{lex_leb_refl, lex_leb_trans, lex_leb-total}
use gptshare.Delivery.{Entry, open_entry, due, order_of, sooner, next_due, this_open, retry_delay}

retry_delay-values :
    (n : ℕ)
    → (n ≡ 0 → retry_delay n ≡ 1000000000)
      × (n ≡ 1 → retry_delay n ≡ 5000000000)
      × (n ≡ 2 → retry_delay n ≡ 30000000000)
      × (n ≡ 3 → retry_delay n ≡ 120000000000)
      × (4 ≤ n → retry_delay n ≡ 300000000000)
unfolding retry_delay
retry_delay-values zero = ground arith
retry_delay-values (suc zero) = ground arith
retry_delay-values (suc (suc zero)) = ground arith
retry_delay-values (suc (suc (suc zero))) = ground arith
retry_delay-values (suc (suc (suc (suc n)))) = ground arith

-- The wait before the next attempt is at least a second, at most five minutes, and never shorter
-- after more attempts.
pub retry_delay-bounds :
    (m n : ℕ)
    → (seconds 1 ≤ retry_delay n)
      × (retry_delay n ≤ seconds 300)
      × (m ≤ n → retry_delay m ≤ retry_delay n)
retry_delay-bounds m n =
    let low = retry_delay-values m in
    let high = retry_delay-values n in
    (ground (arith, high), ground (arith, high), λ h. ground (arith, low, high, h))

abbrev Earliest : ℕ → Entry → List Entry → Type 0
Earliest now e q =
    (due now e ≡ true)
    × (1 ≤ count_where (this_open e.event_id) q)
    × All (λ d. due now d ≡ true → lex_leb (order_of e) (order_of d) ≡ true) q

due-open : (now : ℕ) (e : Entry) → due now e ≡ true → open_entry e ≡ true
unfolding due
due-open now e h = ground arith

pub next_due-none :
    (now : ℕ) (q : List Entry) → next_due now q ≡ none → All (λ d. due now d ≡ false) q
unfolding next_due
next_due-none now [] h = tt
next_due-none now (e ∷ q) h = elim (Bool-cases (due now e)) [
  | inl x ↦ absurd (taken (next_due now q) (rw x at h))
  | inr x ↦ (x, next_due-none now q (rw x at h))
]
  where
    taken : (o : Option Entry) → sooner e o ≡ none → ⊥
    taken none h = cc
    taken (some d) h = ground (arith, h)

sooner-Earliest :
    (now : ℕ) (e : Entry) (q : List Entry) (rest : Option Entry)
    → due now e ≡ true
    → ((d : Entry) → rest ≡ some d → Earliest now d q)
    → (rest ≡ none → All (λ d. due now d ≡ false) q)
    → (c : Entry) → sooner e rest ≡ some c
    → Earliest now c (e ∷ q)
sooner-Earliest now e q none x least empty c h =
    subst (λ c. Earliest now c (e ∷ q)) (some-injective e c h)
      (
        x,
        ground (arith, due-open now e x),
        (
          λ _. lex_leb_refl (order_of e),
          All-map (λ d. due now d ≡ false) _ (λ d no yes. absurd (ground (arith, no, yes))) q
              (empty refl),
        ),
      )
sooner-Earliest now e q (some d) x least empty c h =
    let (dd, dc, da) = least d refl in
    elim (Bool-cases (lex_leb (order_of e) (order_of d))) [
      | inl y ↦
          subst (λ c. Earliest now c (e ∷ q)) (some-injective e c (rw y at h))
            (
              x,
              ground (arith, due-open now e x),
              (
                λ _. lex_leb_refl (order_of e),
                All-map _ _
                    (λ b least yes.
                      lex_leb_trans (order_of e) (order_of d) (order_of b) y (least yes))
                    q da,
              ),
            )
      | inr y ↦
          subst (λ c. Earliest now c (e ∷ q)) (some-injective d c (rw y at h))
            (dd, ground (arith, dc), (λ _. lex_leb-total (order_of e) (order_of d) y, da))
    ]

-- The entry that is taken is open and due, and first by creation and id among all that are due.
pub next_due-Earliest :
    (now : ℕ) (q : List Entry) (e : Entry)
    → next_due now q ≡ some e
    → (due now e ≡ true)
      × (1 ≤ count_where (this_open e.event_id) q)
      × All (λ d. due now d ≡ true → lex_leb (order_of e) (order_of d) ≡ true) q
unfolding next_due
next_due-Earliest now [] e h = cc
next_due-Earliest now (x ∷ q) e h = elim (Bool-cases (due now x)) [
  | inl y ↦
      sooner-Earliest now x q (next_due now q) y (next_due-Earliest now q) (next_due-none now q) e
        (rw y at h)
  | inr y ↦
      let (d, c, a) = next_due-Earliest now q e (rw y at h) in
      (d, ground (arith, c), (λ yes. absurd (ground (arith, y, yes)), a))
]
