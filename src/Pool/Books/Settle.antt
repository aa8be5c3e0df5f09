-- ===== src/Pool/Books/Settle.antt =====
-- Rows that are closed together with the release of their seats.
use gptshare.Base.{ℕ, ◌≡◌, Bool, true, false, where_rows, count_where-update-le, arith, sym, ◌∙◌}
use mathlib.Core.Bool.{false≢true}
use gptshare.Pool.Types.{Allocation, Db}
use gptshare.Pool.Tables.{occupies, group_by_account, release_all}
use gptshare.Pool.Seats.{active_primary}
use gptshare.Pool.Sweep.{settle}
use gptshare.Pool.Ledger.Rows.{Descending-update}
use gptshare.Pool.Ledger.Release.{settle-Owed, release_all-Distinct, release_all-Within}
use gptshare.Pool.Books.Defs.{Books}

-- A row that holds no seat is no active primary row.
idle : (c : ℕ) (l : Allocation) → occupies l ≡ false → active_primary c l ≡ false
unfolding occupies
idle c l h = ground arith

module _ (p : Db → Allocation → Bool) (close : Allocation → Allocation)
    (holds : (db : Db) (l : Allocation) → p db l ≡ true → occupies l ≡ true)
    (closed : (l : Allocation) → occupies (close l) ≡ false)
    (same_id : (l : Allocation) → (close l).id ≡ l.id) where
  pub settle-Books :
      (excess : ℕ → ℕ) (db : Db)
      → p (record db {
        accounts = release_all (group_by_account (where_rows (p db) db.allocations)) db.accounts;
      })
        ≡ p db
      → Books excess db
      → Books excess (settle p close db)
  unfolding settle
  settle-Books excess db stable b = rw stable (record {
    distinct = release_all-Distinct _ db.accounts b.distinct;
    owed = settle-Owed (p db) close (holds db) closed excess db.allocations db.accounts b.owed;
    within = release_all-Within _ db.accounts b.within;
    ordered = Descending-update (p db) close same_id db.next_allocation db.allocations b.ordered;
    one_primary = λ c. omega (
      arith,
      b.one_primary c,
      count_where-update-le (p db) close (active_primary c)
          (λ l e q. absurd (false≢true (sym (idle c (close l) (closed l)) ∙ q))) db.allocations,
    );
  })
