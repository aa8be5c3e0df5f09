-- ===== src/Examples/Users.antt =====
-- What the user center reads.
use gptshare.Base.{ℕ, ◌≡◌, refl, Bool, false, some, List, [], ◌∷◌, map, ◌==◌, All, length, arith}
use gptshare.Pool.Types.{Db}
use gptshare.Ticket.{Bytes}
use gptshare.UserCenter.{Row, later_rows, event_of}
use gptshare.UserCenter.Paging.{follow, follow-all}
use gptshare.UserCenter.Refs.{
  card_entitlement_ref, digits, parse_card_entitlement_ref, parse_digits,
}
use gptshare.UserCenter.Refs.Digits.{parse-card_entitlement_ref}
use gptshare.UserCenter.Status.{
  known_refs, status, bound_entitlements, bound_entitlement, current_username, entitlement_state,
}
use gptshare.UserCenter.Status.Shown.{Disclosed, status-Disclosed}
use gptshare.Examples.Shop.{noon, shop}

abbrev row : ℕ → ℕ → Row
row id detail = record { id = id; card_id = id; user_uid = 7; detail = detail }

abbrev rows : List Row
rows = row 2 5 ∷ row 5 6 ∷ row 9 5 ∷ []

abbrev is_five : ℕ → Bool
is_five d = d == 5

follow-all_example : follow is_five (1 ∷ 0 ∷ []) 2 rows ≡ map (event_of is_five) (later_rows 2 rows)
follow-all_example =
    follow-all is_five (1 ∷ 0 ∷ []) 2 rows (omega arith, (omega arith, (omega arith, tt)))
      (omega arith)

parse-card_entitlement_ref_example :
    parse_card_entitlement_ref (card_entitlement_ref 1203) ≡ some 1203
parse-card_entitlement_ref_example = parse-card_entitlement_ref 1203 (omega arith) (omega arith)

-- A user redeemed card 2, which runs with a seat of account 2; card 1 is nobody's.
abbrev bound_shop : Db
bound_shop = record shop { events = record { card_id = 2; user_uid = 7; claimed = false } ∷ [] }

abbrev refs : List Bytes
refs = card_entitlement_ref 2 ∷ card_entitlement_ref 1 ∷ []

bound_shop-status : length (status noon bound_shop refs) ≡ 1
unfolding status bound_entitlements bound_entitlement current_username entitlement_state
    card_entitlement_ref digits parse_card_entitlement_ref parse_digits
bound_shop-status = refl

status-Disclosed_example :
    All (Disclosed noon bound_shop (known_refs refs)) (status noon bound_shop refs)
status-Disclosed_example = status-Disclosed noon bound_shop refs
