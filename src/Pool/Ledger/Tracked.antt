-- ===== src/Pool/Ledger/Tracked.antt =====
-- One allocation that is followed through the statements of a transaction by its id.
use gptshare.Base.{
  ℕ, ◌+◌, ◌≤◌, ◌≡◌, refl, Bool, true, false, List, [], ◌∷◌, ◌==◌, if◌then◌else◌, All, All-update,
  update_where, count_where, arith, Bool-cases, inl, inr,
}
use gptshare.Pool.Types.{Allocation}
use gptshare.Pool.Tables.{occupies, occupancy}
use gptshare.Pool.Ledger.Rows.{Descending}

abbrev pub count_id : ℕ → List Allocation → ℕ
count_id x = count_where (λ l. l.id == x)

-- Exactly one row has the id, and of that row `Q` holds.
pub record Tracked (x : ℕ) (Q : Allocation → Type 0) (ls : List Allocation) : Type 0 where
  pub row : All (λ l. l.id ≡ x → Q l) ls
  pub once : count_id x ls ≡ 1

count_id-update :
    (p : Allocation → Bool) (f : Allocation → Allocation) (x : ℕ)
    → ((l : Allocation) → (f l).id ≡ l.id)
    → (ls : List Allocation) → count_id x (update_where p f ls) ≡ count_id x ls
count_id-update p f x same [] = refl
count_id-update p f x same (l ∷ ls) = elim (Bool-cases (p l)) [
  | inl e ↦ rw (e, same l, count_id-update p f x same ls)
  | inr e ↦ rw (e, count_id-update p f x same ls)
]

pub Tracked-update :
    (p : Allocation → Bool) (f : Allocation → Allocation) (x : ℕ) (Q R : Allocation → Type 0)
    (ls : List Allocation)
    → ((l : Allocation) → (f l).id ≡ l.id)
    → ((l : Allocation) → l.id ≡ x → Q l → p l ≡ true → R (f l))
    → ((l : Allocation) → l.id ≡ x → Q l → p l ≡ false → R l)
    → Tracked x Q ls
    → Tracked x R (update_where p f ls)
Tracked-update p f x Q R ls same changed kept t = record {
  row =
      All-update p f (λ l. l.id ≡ x → Q l) (λ l. l.id ≡ x → R l)
        (λ l e q i. changed l (rw (same l) at i) (q (rw (same l) at i)) e)
        (λ l e q i. kept l i (q i) e) ls t.row;
  once = rw (count_id-update p f x same ls) t.once;
}

pub below-count : (n x : ℕ) (ls : List Allocation) → Descending n ls → n ≤ x → count_id x ls ≡ 0
below-count n x [] d h = refl
below-count n x (l ∷ ls) d h = ground (arith, below-count l.id x ls d.1)

-- A new row has another id.
pub Tracked-insert :
    (x n : ℕ) (Q : Allocation → Type 0) (l : Allocation) (ls : List Allocation)
    → Descending n ls
    → l.id ≡ n
    → Tracked x Q ls
    → Tracked x Q (l ∷ ls)
Tracked-insert x n Q l ls d e t = elim (Bool-cases (l.id == x)) [
  | inl h ↦ absurd (ground (arith, below-count n x ls d, t.once))
  | inr h ↦ record {
    row = (λ i. absurd (ground arith), t.row);
    once = rw h (omega (arith, t.once));
  }
]

-- The row's seat, before and after an update of that row alone.
module _ (p : Allocation → Bool) (f : Allocation → Allocation) (x old : ℕ)
    (Q : Allocation → Type 0) where
  pub occupancy-leave :
      ((l : Allocation)
        → (p l ≡ true → l.id ≡ x)
          × (l.id ≡ x → Q l → (p l ≡ true) × (occupies l ≡ true) × (l.account_id ≡ old))
          × (occupies (f l) ≡ false))
      → (i : ℕ) (ls : List Allocation) → All (λ l. l.id ≡ x → Q l) ls
      → occupancy i ls ≡ occupancy i (update_where p f ls) + (if i == old then count_id x ls else 0)
  unfolding occupancy
  occupancy-leave facts i [] q = ground arith
  occupancy-leave facts i (l ∷ ls) q =
      let rest = occupancy-leave facts i ls q.1 in
      let (only, mine, left) = facts l in ground (arith, rest, only, mine, q.0)

  pub occupancy-enter :
      ((l : Allocation)
        → (p l ≡ true → l.id ≡ x)
          × (l.id ≡ x → Q l → (p l ≡ true) × (occupies l ≡ false) × (l.account_id ≡ old))
          × (occupies (f l) ≡ true)
          × ((f l).account_id ≡ l.account_id))
      → (i : ℕ) (ls : List Allocation) → All (λ l. l.id ≡ x → Q l) ls
      → occupancy i (update_where p f ls) ≡ occupancy i ls + (if i == old then count_id x ls else 0)
  unfolding occupancy
  occupancy-enter facts i [] q = ground arith
  occupancy-enter facts i (l ∷ ls) q =
      let rest = occupancy-enter facts i ls q.1 in
      let (only, mine, entered, same) = facts l in ground (arith, rest, only, mine, q.0)
