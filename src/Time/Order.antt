-- ===== src/Time/Order.antt =====
-- The order of the texts of instants: a text of an earlier second sorts before.
use native.Mathlib.Nat.{mod-lt, div-lt_iff_lt-mul, mul-le-mul_right, pow-succ', one-le-pow}
use gptshare.Base.{
  ℕ, zero, suc, ◌+◌, ◌*◌, ◌/◌, ◌%◌, ◌^◌, ◌≤◌, ◌<◌, ◌==◌, if◌then◌else◌, arith, Bool-cases, inl, inr,
}
use gptshare.Time.{unix, text_key, fraction_key}

-- A digit and what follows it are below ten places.
place : (q p rest : ℕ) → q < 10 → rest < p → q * p + rest < 10 * p
place q p rest h k =
    let digit : q * p ≤ 9 * p = mul-le-mul_right p (omega (arith, h)) in omega (arith, digit, k)

fraction_key-less : (n f : ℕ) → f < 10 ^ n → fraction_key n f < 11 ^ suc n
unfolding fraction_key
fraction_key-less zero f h = omega arith
fraction_key-less (suc n) f h =
    let ten = pow-succ' 10 n in
    let eleven = pow-succ' 11 (suc n) in
    let ones : 0 < 10 ^ n = one-le-pow n 10 (omega arith) in
    let places : 0 < 11 ^ suc n = one-le-pow (suc n) 11 (omega arith) in
    let digit : f / 10 ^ n < 10 = (div-lt_iff_lt-mul ones).1 (omega (arith, h, ten)) in
    let rest = fraction_key-less n (f % 10 ^ n) (mod-lt f ones) in
    let sum = place (f / 10 ^ n) (11 ^ suc n) (fraction_key n (f % 10 ^ n)) digit rest in
    elim (Bool-cases (f == 0)) [
      | inl e ↦ rw e (omega (arith, eleven, places))
      | inr e ↦ rw e (omega (arith, eleven, places, sum))
    ]

second :
    (q f k : ℕ)
    → k < 11 ^ 10
    → q * 11 ^ 11 + (if f == 0 then 10 * 11 ^ 10 else k) < (q + 1) * 11 ^ 11
second q f k h = ground (arith, h)

text_key-below : (s : ℕ) → text_key s < (unix s + 1) * 11 ^ 11
unfolding text_key unix
text_key-below s =
    second (s / 1000000000) (s % 1000000000) (fraction_key 9 (s % 1000000000))
      (fraction_key-less 9 (s % 1000000000) (mod-lt s (omega arith)))

text_key-above : (s : ℕ) → unix s * 11 ^ 11 ≤ text_key s
unfolding text_key unix
text_key-above s = second_start (s / 1000000000) _
  where
    second_start : (q k : ℕ) → q * 11 ^ 11 ≤ q * 11 ^ 11 + k
    second_start q k = omega arith

pub text_key-later : (s t : ℕ) → unix s + 1 ≤ unix t → text_key s ≤ text_key t
text_key-later s t h = omega (arith, text_key-below s, text_key-above t, h)
