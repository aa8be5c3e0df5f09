-- ===== src/UserCenter/Status.antt =====
-- The status of a user's cards: BoundEntitlements and boundEntitlement of
-- allocation-service/internal/repository/user_center.go, and Status and entitlementState of
-- allocation-service/internal/usercenter/service.go. The title and the form of the date and of the
-- name, of which a part is masked, are left out.
pub mod Shown
use gptshare.Base.{
  ℕ, zero, suc, ◌+◌, ◌-◌, ◌*◌, ◌^◌, Bool, true, false, not, ◌&&◌, ◌||◌, Option, none, some, List,
  [], ◌∷◌, ltb, leb, ◌==◌, if◌then◌else◌, length, exists_where, find_where,
}
use gptshare.Time.{day}
use gptshare.Pool.Types.{CardStatus, AllocationState, Account, Card, Allocation, Db}
use gptshare.Pool.Tables.{has_id}
use gptshare.Pool.Candidate.{find_card}
use gptshare.Pool.Claim.{of_card}
use gptshare.Ticket.{Bytes}
use gptshare.UserCenter.Refs.{parse_card_entitlement_ref}

-- BoundEntitlement; `current_username` is the empty text when none.
pub record BoundEntitlement : Type 0 where
  pub card_id : ℕ
  pub duration_days : ℕ
  pub status : CardStatus
  pub expires_at : Option ℕ
  pub current_username : Option ℕ

abbrev pub is_shown_state : Bool → AllocationState → Bool
is_shown_state first AllocationState.primary = first
is_shown_state first AllocationState.grace = not first
is_shown_state first _ = false

-- A seat of the card whose account joins: in the state primary, or, with false, in grace.
abbrev pub shown_seat : Bool → ℕ → List Account → Allocation → Bool
shown_seat first card_id accounts l =
    l.card_id == card_id
    && l.active
    && is_shown_state first l.allocation_state
    && exists_where (λ a. a.id == l.account_id) accounts

abbrev pub name_of : List Account → Option Allocation → Option ℕ
name_of accounts none = none
name_of accounts (some l) = elim (find_where (λ a. a.id == l.account_id) accounts) [
  | none ↦ none
  | some a ↦ some a.username
]

-- The newest primary seat comes first, and the newest one in grace after it.
unfoldable pub current_username : ℕ → Db → Option ℕ
current_username card_id db =
    elim (find_where (shown_seat true card_id db.accounts) db.allocations) [
      | some l ↦ name_of db.accounts (some l)
      | none ↦
          name_of db.accounts (find_where (shown_seat false card_id db.accounts) db.allocations)
    ]

-- none is sql.ErrNoRows.
unfoldable pub bound_entitlement : ℕ → Db → Option BoundEntitlement
bound_entitlement card_id db = elim (find_card card_id db.cards) [
  | none ↦ none
  | some c ↦
      if exists_where (of_card card_id) db.events
      then some (record {
        card_id = card_id;
        duration_days = c.duration_days;
        status = c.status;
        expires_at = c.expires_at;
        current_username = current_username card_id db;
      })
      else none
]

abbrev pub with_bound : Option BoundEntitlement → List BoundEntitlement → List BoundEntitlement
with_bound none found = found
with_bound (some e) found = e ∷ found

-- One turn of the loop of BoundEntitlements, whose map is a list with one entry for each key.
abbrev pub note : Db → ℕ → List BoundEntitlement → List BoundEntitlement
note db card_id found =
    if exists_where (λ e. e.card_id == card_id) found
    then found
    else with_bound (bound_entitlement card_id db) found

unfoldable pub bound_entitlements : Db → List ℕ → List BoundEntitlement → List BoundEntitlement
bound_entitlements db [] found = found
bound_entitlements db (k ∷ ks) found = bound_entitlements db ks (note db k found)

pub data State : Type 0 where
  expired unknown expiring active : State

-- expiringWindow
abbrev pub expiring_window : ℕ
expiring_window = 3 * day

abbrev pub running_state : ℕ → Option ℕ → State
running_state now none = State.unknown
running_state now (some t) =
    if not (ltb now t)
    then State.expired
    else if leb (t - now) expiring_window
    then State.expiring
    else State.active

unfoldable pub entitlement_state : ℕ → CardStatus → Option ℕ → State
entitlement_state now CardStatus.expired t = State.expired
entitlement_state now CardStatus.revoked t = State.expired
entitlement_state now CardStatus.redeemed t = running_state now t
entitlement_state now CardStatus.unused t = State.unknown
entitlement_state now CardStatus.consumed t = State.unknown

pub record StatusItem : Type 0 where
  pub card_id : ℕ
  pub state : State
  pub expire_at : Option ℕ
  pub username : Option ℕ

abbrev pub names_account : State → Bool
names_account State.active = true
names_account State.expiring = true
names_account _ = false

abbrev pub status_item : ℕ → BoundEntitlement → StatusItem
status_item now e =
    let state = entitlement_state now e.status e.expires_at in
    record {
      card_id = e.card_id;
      state = state;
      expire_at = e.expires_at;
      username = if names_account state then e.current_username else none;
    }

abbrev pub status_items : ℕ → List BoundEntitlement → List StatusItem
status_items now [] = []
status_items now (e ∷ es) = status_item now e ∷ status_items now es

-- The refs that parse, in their order.
abbrev pub known_refs : List Bytes → List ℕ
known_refs [] = []
known_refs (ref ∷ refs) =
    let rest = known_refs refs in
    elim (parse_card_entitlement_ref ref) [ none ↦ rest | some id ↦ id ∷ rest ]

-- Status
unfoldable pub status : ℕ → Db → List Bytes → List StatusItem
status now db refs = status_items now (bound_entitlements db (known_refs refs) [])
