-- ===== src/UserCenter/Refs/Digits.antt =====
-- The reference of a card is read back as the card's id.
use gptshare.Base.{
  ℕ, zero, suc, ◌+◌, ◌-◌, ◌*◌, ◌/◌, ◌%◌, ◌^◌, ◌≤◌, ◌<◌, ◌≡◌, refl, ap, ◌∙◌, true, false, some, [],
  ◌∷◌, ltb, leb, ◌==◌, length, leb→le, arith, Bool-cases, inl, inr,
}
use gptshare.Ticket.{Bytes, all_of, is_nil}
use gptshare.UserCenter.Refs.{
  is_digit, leading_zero, decimal, digits, parse_digits, parse_card_entitlement_ref,
  card_entitlement_ref,
}

decimal-digits :
    (turns n : ℕ) (rest : Bytes) → n < turns → decimal 0 (digits turns n rest) ≡ decimal n rest
unfolding digits
decimal-digits zero n rest h = absurd (omega (arith, h))
decimal-digits (suc turns) n rest h = elim (Bool-cases (ltb n 10)) [
  | inl e ↦
      (let same : 0 * 10 + (48 + n - 48) ≡ n = omega arith in
        rw (e, digits) (ap (λ k. decimal k rest) same))
  | inr e ↦
      (let fewer : n / 10 < turns = ground (arith, e, h) in
        let same : n / 10 * 10 + (48 + n % 10 - 48) ≡ n = omega arith in
        rw (e, digits)
          (decimal-digits turns (n / 10) ((48 + n % 10) ∷ rest) fewer
            ∙ ap (λ k. decimal k rest) same))
]

digits-all :
    (turns n : ℕ) (rest : Bytes)
    → all_of is_digit rest ≡ true
    → all_of is_digit (digits turns n rest) ≡ true
unfolding digits
digits-all zero n rest h = h
digits-all (suc turns) n rest h = elim (Bool-cases (ltb n 10)) [
  | inl e ↦ (let one : is_digit (48 + n) ≡ true = ground (arith, e) in rw (e, digits, one, h) refl)
  | inr e ↦
      (let small : n % 10 < 10 = omega arith in
        let one : is_digit (48 + n % 10) ≡ true = ground (arith, small) in
        rw (e, digits) (digits-all turns (n / 10) ((48 + n % 10) ∷ rest) (rw (one, h) refl)))
]

-- The first digit of a number that is not 0 is not 0.
digits-first :
    (turns n : ℕ) (rest : Bytes)
    → 0 < n
    → n < turns
    → (is_nil (digits turns n rest) ≡ false) × (leading_zero (digits turns n rest) ≡ false)
unfolding digits
digits-first zero n rest pos h = absurd (omega (arith, h))
digits-first (suc turns) n rest pos h = elim (Bool-cases (ltb n 10)) [
  | inl e ↦
      (let other : (48 + n == 48) ≡ false = ground (arith, pos) in
        rw (e, digits, other) (refl, refl))
  | inr e ↦
      rw (e, digits)
        (digits-first turns (n / 10) ((48 + n % 10) ∷ rest) (ground (arith, e))
          (ground (arith, e, h)))
]

abbrev tens : ℕ → ℕ
tens zero = 1
tens (suc k) = tens k * 10

digits-length :
    (turns k n : ℕ) (rest : Bytes)
    → n < tens (suc k)
    → length (digits turns n rest) ≤ suc k + length rest
unfolding digits
digits-length zero k n rest h = omega arith
digits-length (suc turns) zero n rest h = elim (Bool-cases (ltb n 10)) [
  | inl e ↦ rw (e, digits) (omega arith)
  | inr e ↦ absurd (ground (arith, h, e))
]
digits-length (suc turns) (suc k) n rest h = elim (Bool-cases (ltb n 10)) [
  | inl e ↦ rw (e, digits) (omega arith)
  | inr e ↦
      (let shorter = digits-length turns k (n / 10) ((48 + n % 10) ∷ rest) (omega (arith, h)) in
        rw (e, digits) (omega (arith, shorter)))
]

-- The reference that is made for a card is read back as its id, for every id from 1 to the largest
-- of 64 bits.
pub parse-card_entitlement_ref :
    (card_id : ℕ)
    → 0 < card_id
    → card_id < 2 ^ 63
    → parse_card_entitlement_ref (card_entitlement_ref card_id) ≡ some card_id
unfolding parse_card_entitlement_ref card_entitlement_ref parse_digits
parse-card_entitlement_ref card_id pos small =
    let text = digits (suc card_id) card_id [] in
    let enough : card_id < suc card_id = omega arith in
    let (full, plain) = digits-first (suc card_id) card_id [] pos enough in
    let range : 2 ^ 63 ≤ tens 19 = leb→le _ _ refl in
    let size = digits-length (suc card_id) 18 card_id [] (omega (arith, small, range)) in
    let short : ltb 19 (length text) ≡ false = ground (arith, size) in
    let all = digits-all (suc card_id) card_id [] refl in
    let value = decimal-digits (suc card_id) card_id [] enough in
    let below : leb (2 ^ 63) card_id ≡ false = ground (arith, small) in
    let other : (card_id == 0) ≡ false = ground (arith, pos) in
    rw (full, short, all, plain, value, below, other) refl
