-- ===== src/UserCenter.antt =====
-- What the user center reads of the pool: ListRedemptionEvents and Events of
-- allocation-service/internal/repository/user_center.go and
-- allocation-service/internal/usercenter/service.go. Limits and cursors below 0, which count as 0
-- there, are 0.
pub mod Paging
pub mod Refs
pub mod Status
use gptshare.Base.{
  ℕ, zero, suc, ◌<◌, ◌≡◌, Bool, true, false, Option, none, some, List, [], ◌∷◌, map, ltb, ◌==◌,
  if◌then◌else◌, where_rows,
}

-- Rows of redemption_events in the order of their ids; a number stands for the JSON text of detail.
pub record Row : Type 0 where
  pub id : ℕ
  pub card_id : ℕ
  pub user_uid : ℕ
  pub detail : ℕ

-- DefaultEventLimit, MaxEventLimit
abbrev pub default_event_limit : ℕ
default_event_limit = 200

abbrev pub max_event_limit : ℕ
max_event_limit = 500

abbrev pub take {ℓ} : {A : Type ℓ} → ℕ → List A → List A
take zero xs = []
take (suc n) [] = []
take (suc n) (x ∷ xs) = x ∷ take n xs

abbrev pub later_rows : ℕ → List Row → List Row
later_rows after = where_rows (λ r. ltb after r.id)

-- none is the error on a limit that is not positive.
unfoldable pub list_redemption_events : ℕ → ℕ → List Row → Option (List Row)
list_redemption_events after limit rows =
    if limit == 0 then none else some (take limit (later_rows after rows))

unfoldable pub event_limit : ℕ → ℕ
event_limit limit =
    if limit == 0
    then default_event_limit
    else if ltb max_event_limit limit
    then max_event_limit
    else limit

-- The last id of a page, or the cursor it was asked with.
abbrev pub cursor : ℕ → List Row → ℕ
cursor after [] = after
cursor after (r ∷ rows) = cursor r.id rows

-- The detail `{}`.
abbrev pub empty_detail : ℕ
empty_detail = 0

-- json.Valid is a parameter.
module _ (valid : ℕ → Bool) where
  abbrev pub event_of : Row → Row
  event_of r = if valid r.detail then r else record r { detail = empty_detail }

  -- Events: a page and the cursor of the next one.
  unfoldable pub events : ℕ → ℕ → List Row → Option (List Row × ℕ)
  events after limit rows = elim (list_redemption_events after (event_limit limit) rows) [
    | none ↦ none
    | some page ↦ some (map event_of page, cursor after page)
  ]
