-- ===== src/Pool/Books/Agenda.antt =====
-- The cards that ProcessReplacements selects: due_items, sorted.
use gptshare.Base.{
  ℕ, ◌<◌, ◌≡◌, refl, sym, ◌≢◌, Option, some, List, [], ◌∷◌, map, All, All-map, All-on_map, arith,
  Bool-cases, Option-cases, inl, inr,
}
use gptshare.Pool.Types.{Allocation, Db}
use gptshare.Pool.Candidate.{lex_leb}
use gptshare.Pool.Replace.{Due}
use gptshare.Pool.Process.{
  due_join, due_item, due_items, insert_by, sort_by, sorted_due, replacements_due,
}
use gptshare.Pool.Ledger.Rows.{Descending, Descending-below}
use gptshare.Pool.Ledger.Tracked.{Tracked, Tracked-insert, below-count}
use gptshare.Pool.Books.Replace.{IsDue, Awaits}
use gptshare.Pool.Books.Queue.{Apart}
use gptshare.Base.{All-of_map}

-- The rows that the scan selects.
due_item-facts :
    (now : ℕ) (db : Db) (l : Allocation) (x : List ℕ × Due)
    → due_item now db l ≡ some x
    → (x.1.allocation_id ≡ l.id) × IsDue x.1.old_account_id l
unfolding due_item due_join
due_item-facts now db l x h = ground arith

-- Sorted or not: each item awaits its move, its row is older than `n`, and no two items share a row.
record Queued (n : ℕ) (ls : List Allocation) (xs : List (List ℕ × Due)) : Type 0 where
  below : All (λ x. x.1.allocation_id < n) xs
  awaits : All (λ x. Tracked x.1.allocation_id (IsDue x.1.old_account_id) ls) xs
  apart : Apart (map (λ x. x.1) xs)

older :
    (n : ℕ) (l : Allocation) (ls : List Allocation) (xs : List (List ℕ × Due))
    → Descending n (l ∷ ls)
    → Queued l.id ls xs
    → Queued n (l ∷ ls) xs
older n l ls xs d q = record {
  below = All-map _ _ (λ x h. omega (arith, d.0)) xs q.below;
  awaits =
      All-map _ _
        (λ x t. Tracked-insert x.1.allocation_id l.id (IsDue x.1.old_account_id) l ls d.1 refl t) xs
        q.awaits;
  apart = q.apart;
}

newest :
    (n : ℕ) (l : Allocation) (ls : List Allocation) (x : List ℕ × Due) (xs : List (List ℕ × Due))
    → Descending n (l ∷ ls)
    → x.1.allocation_id ≡ l.id
    → IsDue x.1.old_account_id l
    → Queued l.id ls xs
    → Queued n (l ∷ ls) (x ∷ xs)
newest n l ls x xs d same due q =
    let rest = older n l ls xs d q in
    record {
      below = (omega (arith, d.0), rest.below);
      awaits = (
        record {
          row = (
            λ i. due,
            All-map (λ r. r.id < l.id) (λ r. r.id ≡ x.1.allocation_id → IsDue x.1.old_account_id r)
                (λ r h i. absurd (omega arith)) ls (Descending-below l.id ls d.1),
          );
          once = ground (arith, below-count l.id l.id ls d.1);
        },
        rest.awaits,
      );
      apart = (
        All-on_map (λ j. j.allocation_id ≢ x.1.allocation_id) (λ y. y.1) xs
            (All-map _ _ (λ y h. omega arith) xs q.below),
        rest.apart,
      );
    }

module _ (pick : Allocation → Option (List ℕ × Due))
    (facts : (l : Allocation) (x : List ℕ × Due)
      → pick l ≡ some x
      → (x.1.allocation_id ≡ l.id) × IsDue x.1.old_account_id l) where
  due_items-Queued :
      (n : ℕ) (ls : List Allocation) → Descending n ls → Queued n ls (due_items pick ls)
  unfolding due_items
  due_items-Queued n [] d = record { below = tt; awaits = tt; apart = tt }
  due_items-Queued n (l ∷ ls) d =
      let rest = due_items-Queued l.id ls d.1 in
      elim (Option-cases (pick l)) [
        | inl e ↦ rw (e, due_items) (older n l ls (due_items pick ls) d rest)
        | inr (x, e) ↦
            let (same, due) = facts l x e in
            rw (e, due_items) (newest n l ls x (due_items pick ls) d same due rest)
      ]

insert_by-All :
    (P : List ℕ × Due → Type 0) (x : List ℕ × Due) (xs : List (List ℕ × Due))
    → P x
    → All P xs
    → All P (insert_by x xs)
unfolding insert_by
insert_by-All P x [] p h = (p, tt)
insert_by-All P x (y ∷ ys) p h = elim (Bool-cases (lex_leb x.0 y.0)) [
  | inl e ↦ rw e (p, h)
  | inr e ↦ rw e (h.0, insert_by-All P x ys p h.1)
]

-- Sorting keeps items apart.
insert_by-Apart :
    (x : List ℕ × Due) (xs : List (List ℕ × Due))
    → All (λ y. y.1.allocation_id ≢ x.1.allocation_id) xs
    → Apart (map (λ y. y.1) xs)
    → Apart (map (λ y. y.1) (insert_by x xs))
unfolding insert_by
insert_by-Apart x [] h a = (tt, tt)
insert_by-Apart x (y ∷ ys) h a = elim (Bool-cases (lex_leb x.0 y.0)) [
  | inl e ↦ rw e (All-on_map _ (λ z. z.1) (y ∷ ys) h, a)
  | inr e ↦ rw e (
    All-on_map _ (λ z. z.1) (insert_by x ys)
        (insert_by-All _ x ys (λ same. h.0 (sym same)) (All-of_map _ (λ z. z.1) ys a.0)),
    insert_by-Apart x ys h.1 a.1,
  )
]

sort_by-All : (P : List ℕ × Due → Type 0) (xs : List (List ℕ × Due)) → All P xs → All P (sort_by xs)
unfolding sort_by
sort_by-All P [] h = tt
sort_by-All P (x ∷ xs) h = insert_by-All P x (sort_by xs) h.0 (sort_by-All P xs h.1)

sort_by-Apart :
    (xs : List (List ℕ × Due)) → Apart (map (λ y. y.1) xs) → Apart (map (λ y. y.1) (sort_by xs))
unfolding sort_by
sort_by-Apart [] a = tt
sort_by-Apart (x ∷ xs) a =
    insert_by-Apart x (sort_by xs) (sort_by-All _ xs (All-of_map _ (λ z. z.1) xs a.0))
      (sort_by-Apart xs a.1)

-- An agenda: every item awaits its move, and no two items share a row.
module _ (pick : Allocation → Option (List ℕ × Due))
    (facts : (l : Allocation) (x : List ℕ × Due)
      → pick l ≡ some x
      → (x.1.allocation_id ≡ l.id) × IsDue x.1.old_account_id l) where
  pub sorted_due-Awaits :
      (db : Db)
      → Descending db.next_allocation db.allocations
      → All (λ item. Awaits item db) (sorted_due pick db.allocations)
        × Apart (sorted_due pick db.allocations)
  unfolding sorted_due
  sorted_due-Awaits db d =
      let q = due_items-Queued pick facts db.next_allocation db.allocations d in
      (
        All-on_map (λ item. Awaits item db) (λ x. x.1) (sort_by (due_items pick db.allocations))
            (sort_by-All (λ x. Awaits x.1 db) (due_items pick db.allocations) q.awaits),
        sort_by-Apart (due_items pick db.allocations) q.apart,
      )

pub replacements_due-Awaits :
    (now : ℕ) (db : Db)
    → Descending db.next_allocation db.allocations
    → All (λ item. Awaits item db) (replacements_due now db) × Apart (replacements_due now db)
unfolding replacements_due
replacements_due-Awaits now db = sorted_due-Awaits (due_item now db) (due_item-facts now db) db
