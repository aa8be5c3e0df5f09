-- ===== src/UserCenter/Refs.antt =====
-- References to the entitlement of a card: CardEntitlementRef and ParseCardEntitlementRef of
-- allocation-service/internal/repository/user_center.go.
pub mod Digits
use gptshare.Base.{
  ℕ, zero, suc, ◌+◌, ◌-◌, ◌*◌, ◌/◌, ◌%◌, ◌^◌, Bool, true, false, not, ◌&&◌, ◌||◌, Option, none,
  some, List, [], ◌∷◌, ◌++◌, ltb, leb, ◌==◌, if◌then◌else◌, length,
}
use gptshare.Ticket.{Bytes, all_of, is_nil}

-- `card:`
abbrev pub card_entitlement_prefix : Bytes
card_entitlement_prefix = 99 ∷ 97 ∷ 114 ∷ 100 ∷ 58 ∷ []

-- strings.CutPrefix
abbrev pub cut_prefix : Bytes → Bytes → Option Bytes
cut_prefix [] text = some text
cut_prefix (p ∷ ps) [] = none
cut_prefix (p ∷ ps) (c ∷ cs) = if p == c then cut_prefix ps cs else none

abbrev pub is_digit : ℕ → Bool
is_digit c = leb 48 c && leb c 57

-- len(raw) > 1 && raw[0] == '0'
abbrev pub leading_zero : Bytes → Bool
leading_zero [] = false
leading_zero (c ∷ cs) = c == 48 && not (is_nil cs)

-- The number of decimal digits that come after those of `value`.
abbrev pub decimal : ℕ → Bytes → ℕ
decimal value [] = value
decimal value (c ∷ cs) = decimal (value * 10 + (c - 48)) cs

unfoldable pub parse_digits : Bytes → Option ℕ
parse_digits raw =
    if is_nil raw || ltb 19 (length raw) || not (all_of is_digit raw) || leading_zero raw
    then none
    else let id = decimal 0 raw in if leb (2 ^ 63) id || id == 0 then none else some id

unfoldable pub parse_card_entitlement_ref : Bytes → Option ℕ
parse_card_entitlement_ref ref = elim (cut_prefix card_entitlement_prefix ref) [
  | none ↦ none
  | some raw ↦ parse_digits raw
]

-- strconv.FormatInt in base 10: the digits of `n` before `rest`. Every turn divides by 10, so that
-- more turns than `n` are enough.
unfoldable pub digits : ℕ → ℕ → Bytes → Bytes
digits zero n rest = rest
digits (suc turns) n rest =
    let more = digits turns (n / 10) ((48 + n % 10) ∷ rest) in
    if ltb n 10 then (48 + n) ∷ rest else more

unfoldable pub card_entitlement_ref : ℕ → Bytes
card_entitlement_ref card_id = card_entitlement_prefix ++ digits (suc card_id) card_id []
