-- ===== src/Pool/Ledger/Release.antt =====
-- The ledger under releaseAccountCapacity and the loops that call it.
use gptshare.Base.{
  ℕ, ◌+◌, ◌≤◌, ◌≡◌, refl, Bool, true, false, List, [], ◌∷◌, ◌==◌, if◌then◌else◌, All-map,
  All-update, where_rows, update_where, count_where, arith,
}
use gptshare.Pool.Types.{Account, Allocation}
use gptshare.Pool.Tables.{
  occupies, occupancy, add_count, group_by_account, has_id, free_seats, release_account_capacity,
  release_all,
}
use gptshare.Pool.Ledger.Rows.{Owed, Distinct, Within, Distinct-update}

-- What a map of counts gives back to an account.
total : ℕ → List (ℕ × ℕ) → ℕ
total i [] = 0
total i ((k, n) ∷ r) = (if i == k then n else 0) + total i r

total-add_count :
    (i k : ℕ) (g : List (ℕ × ℕ)) → total i (add_count k g) ≡ (if k == i then 1 else 0) + total i g
unfolding total add_count
total-add_count i k [] = ground arith
total-add_count i k ((j, n) ∷ r) = ground (arith, total-add_count i k r)

freed : ℕ → List Allocation → ℕ
freed i = count_where (λ l. l.account_id == i)

total-group : (i : ℕ) (ls : List Allocation) → total i (group_by_account ls) ≡ freed i ls
unfolding total group_by_account freed
total-group i [] = refl
total-group i (l ∷ ls) =
    omega (arith, total-add_count i l.account_id (group_by_account ls), total-group i ls)

pub release-Owed :
    (k n : ℕ) (before after : ℕ → ℕ) (ls : List Allocation) (rows : List Account)
    → ((i : ℕ) → before i ≡ after i + (if i == k then n else 0))
    → Owed before ls rows
    → Owed after ls (release_account_capacity k n rows)
unfolding release_account_capacity
release-Owed k n before after ls rows h =
    All-update (has_id k) (free_seats n)
      (λ a. a.current_allocations ≡ occupancy a.id ls + before a.id)
      (λ a. a.current_allocations ≡ occupancy a.id ls + after a.id)
      (λ a e o. ground (arith, h a.id)) (λ a e o. ground (arith, h a.id)) rows

release_all-Owed :
    (g : List (ℕ × ℕ)) (before after : ℕ → ℕ) (ls : List Allocation) (rows : List Account)
    → ((i : ℕ) → before i ≡ after i + total i g)
    → Owed before ls rows
    → Owed after ls (release_all g rows)
unfolding release_all total
release_all-Owed [] before after ls rows h o = All-map _ _ (λ a q. omega (arith, h a.id)) rows o
release_all-Owed ((k, n) ∷ r) before after ls rows h o =
    release_all-Owed r (λ i. after i + total i r) after ls (release_account_capacity k n rows)
      (λ i. refl)
      (release-Owed k n before (λ i. after i + total i r) ls rows (λ i. omega (arith, h i)) o)

-- The seats that the closed rows held.
occupancy-close :
    (p : Allocation → Bool) (close : Allocation → Allocation)
    → ((l : Allocation) → p l ≡ true → occupies l ≡ true)
    → ((l : Allocation) → occupies (close l) ≡ false)
    → (i : ℕ) (ls : List Allocation)
    → occupancy i ls ≡ occupancy i (update_where p close ls) + freed i (where_rows p ls)
unfolding occupancy freed
occupancy-close p close holds closed i [] = refl
occupancy-close p close holds closed i (l ∷ ls) =
    ground (arith, holds l, closed l, occupancy-close p close holds closed i ls)

pub settle-Owed :
    (p : Allocation → Bool) (close : Allocation → Allocation)
    → ((l : Allocation) → p l ≡ true → occupies l ≡ true)
    → ((l : Allocation) → occupies (close l) ≡ false)
    → (excess : ℕ → ℕ) (ls : List Allocation) (rows : List Account) → Owed excess ls rows
    → Owed excess (update_where p close ls) (release_all (group_by_account (where_rows p ls)) rows)
settle-Owed p close holds closed excess ls rows o =
    release_all-Owed (group_by_account (where_rows p ls))
      (λ i. excess i + freed i (where_rows p ls)) excess (update_where p close ls) rows
      (λ i. omega (arith, total-group i (where_rows p ls)))
      (All-map _ _ (λ a q. omega (arith, occupancy-close p close holds closed a.id ls)) rows o)

pub release-Distinct :
    (k n : ℕ) (rows : List Account) → Distinct rows → Distinct (release_account_capacity k n rows)
unfolding release_account_capacity
release-Distinct k n = Distinct-update (has_id k) (free_seats n) (λ a. refl)

pub release_all-Distinct :
    (g : List (ℕ × ℕ)) (rows : List Account) → Distinct rows → Distinct (release_all g rows)
unfolding release_all
release_all-Distinct [] rows h = h
release_all-Distinct ((k, n) ∷ r) rows h =
    release_all-Distinct r (release_account_capacity k n rows) (release-Distinct k n rows h)

pub release-Within :
    (k n : ℕ) (rows : List Account) → Within rows → Within (release_account_capacity k n rows)
unfolding release_account_capacity
release-Within k n =
    All-update (has_id k) (free_seats n) (λ a. a.current_allocations ≤ a.max_concurrent_users)
      (λ a. a.current_allocations ≤ a.max_concurrent_users) (λ a e h. omega arith) (λ a e h. h)

pub release_all-Within :
    (g : List (ℕ × ℕ)) (rows : List Account) → Within rows → Within (release_all g rows)
unfolding release_all
release_all-Within [] rows h = h
release_all-Within ((k, n) ∷ r) rows h =
    release_all-Within r (release_account_capacity k n rows) (release-Within k n rows h)
