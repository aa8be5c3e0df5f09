-- ===== src/Pool/Books/Defs.antt =====
-- The invariant of the allocation database.
use gptshare.Base.{ℕ, ◌≤◌, ◌≡◌, count_where}
use gptshare.Pool.Types.{Db}
use gptshare.Pool.Seats.{active_primary}
use gptshare.Pool.Ledger.Rows.{Owed, Distinct, Within, Descending}

-- `excess` is what the accounts store beyond the seats that are held, in the midst of a transaction.
pub record Books (excess : ℕ → ℕ) (db : Db) : Type 0 where
  pub distinct : Distinct db.accounts
  pub owed : Owed excess db.allocations db.accounts
  pub within : Within db.accounts
  pub ordered : Descending db.next_allocation db.allocations
  pub one_primary : (c : ℕ) → count_where (active_primary c) db.allocations ≤ 1

abbrev pub nothing : ℕ → ℕ
nothing i = 0

-- Between transactions each account stores exactly the number of its seats that are held.
abbrev pub IsSound : Db → Type 0
IsSound = Books nothing

-- The books depend on three fields only.
pub Books-same :
    (excess : ℕ → ℕ) (db db' : Db)
    → db'.accounts ≡ db.accounts
    → db'.allocations ≡ db.allocations
    → db'.next_allocation ≡ db.next_allocation
    → Books excess db
    → Books excess db'
Books-same excess db db' ea el en b = record {
  distinct = rw ea b.distinct;
  owed = rw (ea, el) b.owed;
  within = rw ea b.within;
  ordered = rw (el, en) b.ordered;
  one_primary = rw el b.one_primary;
}
