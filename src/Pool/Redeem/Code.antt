-- ===== src/Pool/Redeem/Code.antt =====
-- A code that is entered again: RedeemCodeWithBinding, existingRedeemByCodeHash and
-- UserAllocationsByCodeHash of repository.go. The card and the account that are returned beside the
-- allocation are those it names, and are left out.
pub mod Again
use gptshare.Base.{
  ℕ, Bool, true, false, ◌&&◌, Option, none, some, List, [], ◌∷◌, ◌++◌, ◌==◌, if◌then◌else◌,
  find_where, where_rows, is_none,
}
use gptshare.Pool.Types.{
  Account, Card, Allocation, Binding, Db, Error, Result, ok, err, no_rows, card_state_conflict,
  credentials_unreadable, keyring_required, ◌>>=◌, ◌>>◌, guard, or_fail,
}
use gptshare.Pool.Tables.{is_redeemed, is_primary, is_grace, after, credentials_complete}
use gptshare.Pool.Claim.{Claim, claim_card}
use gptshare.Pool.Redeem.{redeem_card}

-- The field Bind: the empty text, `new`, or the answer of claimCard.
pub data Bind : Type 0 where
  unbound new : Bind
  claim : Claim → Bind

pub record RedeemResult : Type 0 where
  pub allocation : Allocation
  pub bind : Bind

abbrev pub oldest_first : List Allocation → List Allocation
oldest_first [] = []
oldest_first (l ∷ ls) = oldest_first ls ++ l ∷ []

abbrev pub grace_runs : ℕ → Option ℕ → Bool
grace_runs now none = true
grace_runs now (some t) = after now t

-- A seat of the card that is shown, primary or, with false, in grace.
abbrev pub is_shown : Bool → ℕ → ℕ → Allocation → Bool
is_shown first now card_id l =
    l.card_id == card_id
    && l.active
    && (if first then is_primary l.allocation_state else is_grace l.allocation_state)
    && after now l.valid_until
    && grace_runs now l.grace_until

-- The columns that scanUserAllocationBase reads.
abbrev pub view_of : Allocation → Allocation
view_of l = record l { replaced_at = none; replacement_reason = none }

-- ORDER BY the primary seat first, and then the id.
abbrev pub shown_rows : ℕ → ℕ → List Allocation → List Allocation
shown_rows now card_id ls =
    oldest_first (where_rows (is_shown true now card_id) ls)
    ++ oldest_first (where_rows (is_shown false now card_id) ls)

-- Credentials; `opens` says of which accounts the keyring opens the secrets.
abbrev pub open_credentials : Bool → (ℕ → Bool) → Account → Result (Unit {0})
open_credentials has_keyring opens a =
    guard has_keyring keyring_required
    >> guard (credentials_complete a && opens a.id) credentials_unreadable

-- Account and Credentials for every seat that is shown.
abbrev pub read_all : Bool → (ℕ → Bool) → List Account → List Allocation → Result (Unit {0})
read_all has_keyring opens accounts [] = ok tt
read_all has_keyring opens accounts (l ∷ ls) =
    (or_fail (find_where (λ a. a.id == l.account_id && is_none a.archived_at) accounts) no_rows
      >>= open_credentials has_keyring opens)
    >> read_all has_keyring opens accounts ls

-- views[0], when all of them can be read.
abbrev pub first_view : Result (Unit {0}) → List Allocation → Result Allocation
first_view read [] = err no_rows
first_view read (l ∷ ls) = read >> ok (view_of l)

-- existingRedeemByCodeHash
unfoldable pub existing_redeem : Bool → (ℕ → Bool) → ℕ → ℕ → Db → Result Allocation
existing_redeem has_keyring opens now code_hash db =
    elim (find_where (λ c. c.code_hash == code_hash) db.cards) [
      | none ↦ err no_rows
      | some c ↦
          let views = shown_rows now c.id db.allocations in
          if is_redeemed c.status
          then first_view (read_all has_keyring opens db.accounts views) views
          else err no_rows
    ]

abbrev pub is_state_conflict : Error → Bool
is_state_conflict card_state_conflict = true
is_state_conflict _ = false

abbrev pub with_bind : Bind → Result Allocation → Result RedeemResult
with_bind bind (ok l) = ok (record { allocation = l; bind = bind })
with_bind bind (err e) = err e

-- The branch after a conflict. A claim is a transaction of its own, which stays when the seats cannot
-- be read.
unfoldable pub repeat_redeem :
    Bool → (ℕ → Bool) → ℕ → ℕ → Option Binding → Db → Db × Result RedeemResult
repeat_redeem has_keyring opens now code_hash none db =
    (db, with_bind Bind.unbound (existing_redeem has_keyring opens now code_hash db))
repeat_redeem has_keyring opens now code_hash (some b) db =
    elim (claim_card now has_keyring code_hash (some b) db) [
      | err e ↦ (db, err e)
      | ok c ↦
          (c.0, with_bind (Bind.claim c.1) (existing_redeem has_keyring opens now code_hash c.0))
    ]

abbrev pub first_bind : Option Binding → Bind
first_bind none = Bind.unbound
first_bind (some b) = Bind.new

-- RedeemCodeWithBinding: what the tables are afterwards, and what is returned.
unfoldable pub redeem_code :
    Bool → (ℕ → Bool) → ℕ → Bool → ℕ → Option Binding → Db → Db × Result RedeemResult
redeem_code has_keyring opens now monitor_available code_hash binding db =
    elim (redeem_card now has_keyring monitor_available code_hash binding db) [
      | ok r ↦ (r.0, ok (record { allocation = r.1; bind = first_bind binding }))
      | err e ↦
          if is_state_conflict e
          then repeat_redeem has_keyring opens now code_hash binding db
          else (db, err e)
    ]
