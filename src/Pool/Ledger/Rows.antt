-- ===== src/Pool/Ledger/Rows.antt =====
-- What the ledger says of the rows of chatgpt_accounts and allocations.
use gptshare.Base.{
  ℕ, ◌+◌, ◌≤◌, ◌<◌, ◌≡◌, ◌≢◌, Bool, List, [], ◌∷◌, All, All-update, Bool-cases, inl, inr,
  update_where, arith,
}
use gptshare.Pool.Types.{Account, Allocation}
use gptshare.Pool.Tables.{occupancy}

-- Each account stores the number of its seats that are held, and `excess` more.
abbrev pub Owed : (ℕ → ℕ) → List Allocation → List Account → Type 0
Owed excess ls = All (λ a. a.current_allocations ≡ occupancy a.id ls + excess a.id)

-- The primary key of chatgpt_accounts.
abbrev pub Distinct : List Account → Type 0
Distinct [] = Unit {0}
Distinct (a ∷ rows) = All (λ b. b.id ≢ a.id) rows × Distinct rows

abbrev pub Within : List Account → Type 0
Within = All (λ a. a.current_allocations ≤ a.max_concurrent_users)

-- The primary key of allocations: it grows, and the newest row stands first.
abbrev pub Descending : ℕ → List Allocation → Type 0
Descending n [] = Unit {0}
Descending n (l ∷ ls) = (l.id < n) × Descending l.id ls

module _ (p : Account → Bool) (f : Account → Account)
    (same_id : (a : Account) → (f a).id ≡ a.id) where
  ids-update :
      (k : ℕ) (rows : List Account)
      → All (λ b. b.id ≢ k) rows
      → All (λ b. b.id ≢ k) (update_where p f rows)
  ids-update k =
      All-update p f (λ b. b.id ≢ k) (λ b. b.id ≢ k) (λ a _ h. rw (same_id a) h) (λ a _ h. h)

  pub Distinct-update : (rows : List Account) → Distinct rows → Distinct (update_where p f rows)
  Distinct-update [] h = tt
  Distinct-update (a ∷ rows) h = elim (Bool-cases (p a)) [
    | inl e ↦ rw (e, same_id a) (ids-update a.id rows h.0, Distinct-update rows h.1)
    | inr e ↦ rw e (ids-update a.id rows h.0, Distinct-update rows h.1)
  ]

module _ (p : Allocation → Bool) (f : Allocation → Allocation)
    (same_id : (l : Allocation) → (f l).id ≡ l.id) where
  pub Descending-update :
      (n : ℕ) (ls : List Allocation) → Descending n ls → Descending n (update_where p f ls)
  Descending-update n [] h = tt
  Descending-update n (l ∷ ls) h = elim (Bool-cases (p l)) [
    | inl e ↦ rw (e, same_id l) (h.0, Descending-update l.id ls h.1)
    | inr e ↦ rw e (h.0, Descending-update l.id ls h.1)
  ]

Descending-weaken : (m n : ℕ) (ls : List Allocation) → m ≤ n → Descending m ls → Descending n ls
Descending-weaken m n [] h d = tt
Descending-weaken m n (l ∷ ls) h d = (omega (arith, d.0), d.1)

pub Descending-below : (n : ℕ) (ls : List Allocation) → Descending n ls → All (λ l. l.id < n) ls
Descending-below n [] d = tt
Descending-below n (l ∷ ls) d =
    (d.0, Descending-below n ls (Descending-weaken l.id n ls (omega (arith, d.0)) d.1))
