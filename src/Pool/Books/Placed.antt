-- ===== src/Pool/Books/Placed.antt =====
-- What a completed move of replaceOneAllocation leaves of the card: its old seat and its new one.
use mathlib.Core.List.{Memᴰ}
use gptshare.Base.{ℕ, ◌+◌, ◌≡◌, ◌≢◌, true, false, some, List}
use gptshare.Time.{day}
use gptshare.Pool.Types.{Account, Allocation, AllocationState, Reason, Replacement, Db}
use gptshare.Pool.Tables.{allocatable}
use gptshare.Pool.Seats.{new_allocation}
use gptshare.Pool.Replace.{Due}
use gptshare.Pool.Ledger.Tracked.{Tracked}
use gptshare.Pool.Books.Defs.{IsSound}

-- The old seat: gone with a banned or expired account, and kept for a day of grace otherwise.
abbrev pub Left : ℕ → ℕ → Reason → Allocation → Type 0
Left now old Reason.banned l =
    (l.active ≡ false) × (l.allocation_state ≡ AllocationState.replaced) × (l.account_id ≡ old)
Left now old Reason.account_expired l =
    (l.active ≡ false) × (l.allocation_state ≡ AllocationState.replaced) × (l.account_id ≡ old)
Left now old _ l =
    (l.active ≡ true)
    × (l.allocation_state ≡ AllocationState.grace)
    × (l.grace_until ≡ some (now + day))
    × (l.account_id ≡ old)

-- The card's seats after a move, and the entry of replacement_history.
pub record Placed (now : ℕ) (item : Due) (db : Db) (r : Db × Replacement) : Type 0 where
  pub account : Account
  pub row : Memᴰ account db.accounts
  pub fit : allocatable now account ≡ true
  pub other : account.id ≢ item.old_account_id
  pub new_seat :
      Tracked db.next_allocation
        (λ l.
          l ≡ new_allocation db.next_allocation item.card_id account.id now item.card_expires_at)
        r.0.allocations
  pub old_seat :
      Tracked item.allocation_id (Left now item.old_account_id item.reason) r.0.allocations
  pub sound : IsSound r.0
  pub from_account : r.1.old_account_id ≡ item.old_account_id
  pub to_account : r.1.new_account_id ≡ account.id
