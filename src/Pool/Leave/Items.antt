-- ===== src/Pool/Leave/Items.antt =====
-- The seats that retireAccount reads before its loop: which rows they name, and how many they are.
use gptshare.Base.{
  ℕ, ◌+◌, ◌<◌, ◌≡◌, refl, ◌≢◌, true, false, List, [], ◌∷◌, ◌++◌, length, All, All-map, is_some,
  arith, Bool-cases, Option-cases, inl, inr,
}
use gptshare.Pool.Types.{Card, Allocation, AllocationState}
use gptshare.Pool.Tables.{is_primary, occupies, occupancy, seat_of}
use gptshare.Pool.Candidate.{find_card}
use gptshare.Pool.Leave.{Leaving, leaving, leaving_of}
use gptshare.Pool.Ledger.Rows.{Descending, Descending-below}
use gptshare.Pool.Ledger.Tracked.{Tracked, Tracked-insert, below-count}

-- A held seat of the account, of the kind that was read.
abbrev pub IsSeat : ℕ → AllocationState → Allocation → Type 0
IsSeat k state l =
    (l.active ≡ true)
    × (occupies l ≡ true)
    × (l.account_id ≡ k)
    × (is_primary l.allocation_state ≡ is_primary state)

abbrev pub Waits : ℕ → List Allocation → Leaving → Type 0
Waits k ls item = Tracked item.id (IsSeat k item.state) ls

-- Items of different rows.
abbrev pub Apart : List Leaving → Type 0
Apart [] = Unit {0}
Apart (i ∷ items) = All (λ j. j.id ≢ i.id) items × Apart items

-- The foreign key of allocations.card_id.
abbrev pub HasCards : List Card → List Allocation → Type 0
HasCards cards = All (λ l. is_some (find_card l.card_id cards) ≡ true)

pub record Listed (k n : ℕ) (ls : List Allocation) (items : List Leaving) : Type 0 where
  pub below : All (λ i. i.id < n) items
  pub waits : All (Waits k ls) items
  pub apart : Apart items
  pub count : occupancy k ls ≡ length items

All-snoc {κ} :
    (P : Leaving → Type κ) (items : List Leaving) (x : Leaving)
    → All P items
    → P x
    → All P (items ++ x ∷ [])
All-snoc P [] x h p = (p, tt)
All-snoc P (i ∷ items) x h p = (h.0, All-snoc P items x h.1 p)

Apart-snoc :
    (items : List Leaving) (x : Leaving)
    → All (λ i. i.id < x.id) items
    → Apart items
    → Apart (items ++ x ∷ [])
Apart-snoc [] x b a = (tt, tt)
Apart-snoc (i ∷ items) x b a = (
  All-snoc (λ j. j.id ≢ i.id) items x a.0 (λ e. absurd (omega (arith, b.0))),
  Apart-snoc items x b.1 a.1,
)

length-snoc : (items : List Leaving) (x : Leaving) → length (items ++ x ∷ []) ≡ length items + 1
length-snoc [] x = refl
length-snoc (i ∷ items) x = omega (arith, length-snoc items x)

append_nil : (items : List Leaving) → items ++ [] ≡ items
append_nil [] = refl
append_nil (i ∷ items) = rw (append_nil items) refl

IsSeat-facts : (k : ℕ) (l : Allocation) → seat_of k l ≡ true → IsSeat k l.allocation_state l
unfolding occupies
IsSeat-facts k l e = (ground arith, ground arith, ground arith, refl)

module _ (k n : ℕ) (l : Allocation) (ls : List Allocation) (items : List Leaving)
    (d : Descending n (l ∷ ls)) (q : Listed k l.id ls items) where
  older : All (Waits k (l ∷ ls)) items
  older =
      All-map (Waits k ls) (Waits k (l ∷ ls))
        (λ i t. Tracked-insert i.id l.id (IsSeat k i.state) l ls d.1 refl t) items q.waits

  skipped : seat_of k l ≡ false → Listed k n (l ∷ ls) items
  unfolding occupancy
  skipped e = record {
    below = All-map _ _ (λ i h. omega (arith, d.0)) items q.below;
    waits = older;
    apart = q.apart;
    count = rw e (omega (arith, q.count));
  }

  listed : (c : Card) → seat_of k l ≡ true → Listed k n (l ∷ ls) (items ++ leaving_of l c ∷ [])
  unfolding occupancy
  listed c e = record {
    below =
        All-snoc (λ i. i.id < n) items (leaving_of l c)
          (All-map _ _ (λ i h. omega (arith, d.0)) items q.below) d.0;
    waits = All-snoc (Waits k (l ∷ ls)) items (leaving_of l c) older (record {
      row = (
        λ i. IsSeat-facts k l e,
        All-map (λ r. r.id < l.id) (λ r. r.id ≡ l.id → IsSeat k l.allocation_state r)
            (λ r h i. absurd (omega arith)) ls (Descending-below l.id ls d.1),
      );
      once = ground (arith, below-count l.id l.id ls d.1);
    });
    apart = Apart-snoc items (leaving_of l c) q.below q.apart;
    count = rw e (omega (arith, q.count, length-snoc items (leaving_of l c)));
  }

pub leaving-Listed :
    (k : ℕ) (cards : List Card) (n : ℕ) (ls : List Allocation)
    → Descending n ls
    → HasCards cards ls
    → Listed k n ls (leaving k cards ls)
unfolding leaving occupancy
leaving-Listed k cards n [] d h = record { below = tt; waits = tt; apart = tt; count = refl }
leaving-Listed k cards n (l ∷ ls) d h =
    let rest = leaving-Listed k cards l.id ls d.1 h.1 in
    elim (Bool-cases (seat_of k l)) [
      | inr e ↦
          rw (e, append_nil (leaving k cards ls)) (skipped k n l ls (leaving k cards ls) d rest e)
      | inl e ↦ elim (Option-cases (find_card l.card_id cards)) [
        | inl f ↦ absurd (ground (arith, h.0))
        | inr (c, f) ↦ rw (e, f) (listed k n l ls (leaving k cards ls) d rest c e)
      ]
    ]
