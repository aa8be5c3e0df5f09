-- ===== src/Pool/Admin/Capacity.antt =====
-- The default capacity: SetDefaultAccountCapacity, what is read of it, and its application.
use gptshare.Base.{
  ℕ, ◌≤◌, ◌≡◌, refl, subst, true, false, ◌&&◌, List, [], ◌∷◌, leb, if◌then◌else◌, is_none, All,
  All-both, All-update, ◌+◌, arith, Bool-cases, inl, inr,
}
use gptshare.Pool.Types.{Account, Db, ok, err, invalid_setting, ◌>>=◌, >>=-eq-ok, ok-injective}
use gptshare.Pool.Tables.{
  is_full, is_disabled, is_dead_banned, after, allocatable, occupancy, free_seats,
}
use gptshare.Pool.Message.{default_account_capacity}
use gptshare.Pool.Admin.{
  Setting, valid_account_capacity, set_default_account_capacity, in_use, capacity_status,
  capacity_row, apply_default_account_capacity,
}
use gptshare.Pool.Books.Defs.{IsSound}
use gptshare.Pool.Ledger.Rows.{Distinct-update}

-- A capacity that is stored is read back as it was, and a capacity is stored exactly when it is
-- from 1 to 1000.
pub default_capacity-roundtrip :
    (capacity : ℕ) (before : Setting)
    → (set_default_account_capacity capacity before >>= default_account_capacity)
      ≡ (if leb 1 capacity && leb capacity 1000 then ok capacity else err invalid_setting)
unfolding set_default_account_capacity default_account_capacity
default_capacity-roundtrip capacity before = elim (Bool-cases (valid_account_capacity capacity)) [
  | inl e ↦ rw (e, e) refl
  | inr e ↦ rw e refl
]

capacity_status-full :
    (capacity : ℕ) (a : Account)
    → is_full (capacity_status capacity a) ≡ leb capacity a.current_allocations
capacity_status-full capacity a = ground arith

pub All-true : (rows : List Account) → All (λ a. Unit {0}) rows
All-true [] = tt
All-true (a ∷ rows) = (tt, All-true rows)

-- An account in use has the capacity, and the status full exactly when no seat is left of it.
abbrev pub Labelled : ℕ → Account → Type 0
Labelled capacity a =
    in_use a ≡ true
    → (a.max_concurrent_users ≡ capacity) × (is_full a.status ≡ leb capacity a.current_allocations)

-- An application of the default that succeeds leaves every account that is not archived with the
-- default capacity, and with the status full exactly when no seat is left of it, whatever status
-- the account had.
pub apply_default-Labelled :
    (setting : Setting) (db : Db) {r : Db × ℕ}
    → apply_default_account_capacity setting db ≡ ok r
    → (capacity : ℕ) × (default_account_capacity setting ≡ ok capacity)
      × All (Labelled capacity) r.0.accounts
unfolding apply_default_account_capacity
apply_default-Labelled setting db h =
    let (capacity, e, h1) = >>=-eq-ok (default_account_capacity setting) _ h in
    (
      capacity,
      e,
      subst (λ (q : Db × ℕ). All (Labelled capacity) q.0.accounts) (ok-injective h1)
          (All-update in_use (capacity_row capacity) (λ a. Unit {0}) (Labelled capacity)
            (λ a u x i. (refl, capacity_status-full capacity a))
            (λ a u x i. absurd (ground (arith, u, i))) db.accounts (All-true db.accounts)),
    )

-- Under accounts that hold no more seats than the default allows, its application keeps the
-- database sound.
pub apply_default-IsSound :
    (setting : Setting) (db : Db) {r : Db × ℕ}
    → ((capacity : ℕ)
        → default_account_capacity setting ≡ ok capacity
        → All (λ a. a.current_allocations ≤ capacity) db.accounts)
    → IsSound db
    → apply_default_account_capacity setting db ≡ ok r
    → IsSound r.0
unfolding apply_default_account_capacity
apply_default-IsSound setting db room b h =
    let (capacity, e, h1) = >>=-eq-ok (default_account_capacity setting) _ h in
    let fits =
      All-both (λ a. a.current_allocations ≤ capacity)
        (λ a. a.current_allocations ≤ a.max_concurrent_users)
        (λ a. (a.current_allocations ≤ capacity) × (a.current_allocations ≤ a.max_concurrent_users))
        (λ a x y. (x, y)) db.accounts (room capacity e) b.within in
    subst (λ (q : Db × ℕ). IsSound q.0) (ok-injective h1)
      (record {
        distinct =
            Distinct-update in_use (capacity_row capacity) (λ a. refl) db.accounts b.distinct;
        owed =
            All-update in_use (capacity_row capacity)
              (λ a. a.current_allocations ≡ occupancy a.id db.allocations + 0)
              (λ a. a.current_allocations ≡ occupancy a.id db.allocations + 0) (λ a u o. o)
              (λ a u o. o) db.accounts b.owed;
        within =
            All-update in_use (capacity_row capacity) _
              (λ a. a.current_allocations ≤ a.max_concurrent_users) (λ a u f. f.0) (λ a u f. f.1)
              db.accounts fits;
        ordered = b.ordered;
        one_primary = b.one_primary;
      })

-- An account that is disabled with as many seats held as the default allows is given the status
-- full by its application, and is allocatable as soon as one seat is released.
pub apply_default-revives :
    (capacity now : ℕ) (a : Account)
    → is_disabled a.status ≡ true
    → a.current_allocations ≡ capacity
    → 1 ≤ capacity
    → is_none a.archived_at ≡ true
    → is_dead_banned a.monitor_status ≡ false
    → after now a.account_expiry ≡ true
    → (allocatable now a ≡ false)
      × (allocatable now (free_seats 1 (capacity_row capacity a)) ≡ true)
unfolding allocatable
apply_default-revives capacity now a d c one u m x =
    (ground (arith, d), ground (arith, c, one, u, m, x))
