-- ===== src/Pool/Reconcile/Restore.antt =====
-- The stored counts after reconcileAllocationCounts of repository.go.
use gptshare.Base.{
  ℕ, ◌≡◌, refl, subst, sym, ap, ◌⊎◌, inl, inr, true, false, ◌&&◌, List, [], ◌∷◌, map, ◌==◌, All,
  All-map, All-update, update_where, where_rows, exists_where, is_none, arith, Bool-cases,
}
use gptshare.Pool.Types.{Account, Db}
use gptshare.Pool.Tables.{occupancy}
use gptshare.Pool.Reconcile.{drifted, fix_counts, reconcile_allocation_counts}

-- Right, or still on the list of rows to correct.
abbrev Pending : Db → List (ℕ × ℕ) → Account → Type 0
Pending db g a =
    (is_none a.archived_at ≡ false)
    ⊎ (a.current_allocations ≡ occupancy a.id db.allocations)
    ⊎ (exists_where (λ x. x.0 == a.id) g ≡ true)

one_fixed :
    (db : Db) (k : ℕ) (g : List (ℕ × ℕ)) (rows : List Account)
    → All (Pending db ((k, occupancy k db.allocations) ∷ g)) rows
    → All (Pending db g) (
        update_where
          (λ a. a.id == k && is_none a.archived_at)
          (λ a. record a { current_allocations = occupancy k db.allocations })
          rows)
one_fixed db k g =
    All-update (λ a. a.id == k && is_none a.archived_at)
      (λ a. record a { current_allocations = occupancy k db.allocations })
      (Pending db ((k, occupancy k db.allocations) ∷ g)) (Pending db g)
      (λ a e h. inr (inl (ap (λ i. occupancy i db.allocations) (same a e)))) (λ a e h. still a e h)
  where
    same : (a : Account) → (a.id == k && is_none a.archived_at) ≡ true → k ≡ a.id
    same a e = ground arith

    still :
        (a : Account)
        → (a.id == k && is_none a.archived_at) ≡ false
        → Pending db ((k, occupancy k db.allocations) ∷ g) a
        → Pending db g a
    still a e (inl h) = inl h
    still a e (inr (inl h)) = inr (inl h)
    still a e (inr (inr h)) = ground arith

All-fixed :
    (db : Db) (ks : List Account) (rows : List Account)
    → All (Pending db (map (λ a. (a.id, occupancy a.id db.allocations)) ks)) rows
    → All (Pending db []) (fix_counts (map (λ a. (a.id, occupancy a.id db.allocations)) ks) rows)
unfolding fix_counts
All-fixed db [] rows h = h
All-fixed db (k ∷ ks) rows h =
    All-fixed db ks _
      (one_fixed db k.id (map (λ a. (a.id, occupancy a.id db.allocations)) ks) rows h)

abbrev counts_of : Db → List Account → List (ℕ × ℕ)
counts_of db rows = map (λ a. (a.id, occupancy a.id db.allocations)) rows

widen :
    (db : Db) (x : ℕ × ℕ) (g : List (ℕ × ℕ)) (a : Account) → Pending db g a → Pending db (x ∷ g) a
widen db x g a (inl h) = inl h
widen db x g a (inr (inl h)) = inr (inl h)
widen db x g a (inr (inr h)) = ground arith

settled : (db : Db) (g : List (ℕ × ℕ)) (a : Account) → drifted db a ≡ false → Pending db g a
settled db g a h = elim (Bool-cases (is_none a.archived_at)) [
  | inl e ↦ inr (inl (ground arith))
  | inr e ↦ inl e
]

All-Pending :
    (db : Db) (rows : List Account)
    → All (Pending db (counts_of db (where_rows (drifted db) rows))) rows
All-Pending db [] = tt
All-Pending db (a ∷ rows) = elim (Bool-cases (drifted db a)) [
  | inl e ↦
      subst (λ g. All (Pending db (counts_of db g)) (a ∷ rows)) (sym (hit a rows e))
        (
          inr (inr (ground arith)),
          All-map _ _
              (λ b.
                widen db (a.id, occupancy a.id db.allocations)
                  (counts_of db (where_rows (drifted db) rows)) b)
              rows (All-Pending db rows),
        )
  | inr e ↦
      subst (λ g. All (Pending db (counts_of db g)) (a ∷ rows)) (sym (miss a rows e))
        (settled db (counts_of db (where_rows (drifted db) rows)) a e, All-Pending db rows)
]
  where
    hit :
        (a : Account) (rows : List Account)
        → drifted db a ≡ true
        → where_rows (drifted db) (a ∷ rows) ≡ a ∷ where_rows (drifted db) rows
    hit a rows e = rw e

    miss :
        (a : Account) (rows : List Account)
        → drifted db a ≡ false
        → where_rows (drifted db) (a ∷ rows) ≡ where_rows (drifted db) rows
    miss a rows e = rw e

right :
    (db : Db) (a : Account)
    → Pending db [] a
    → is_none a.archived_at ≡ true
    → a.current_allocations ≡ occupancy a.id db.allocations
right db a (inl h) u = cc
right db a (inr (inl h)) u = h
right db a (inr (inr h)) u = cc

-- Whatever the accounts stored before, after the correction each account that is not archived stores
-- the number of its seats that are held, and no allocation has changed.
pub reconcile-restores :
    (db : Db)
    → let after = (reconcile_allocation_counts db).0 in
      All
        (λ a. is_none a.archived_at ≡ true → a.current_allocations ≡ occupancy a.id db.allocations)
        after.accounts
      × (after.allocations ≡ db.allocations)
unfolding reconcile_allocation_counts
reconcile-restores db = (
  All-map (Pending db []) _ (right db) _
      (All-fixed db (where_rows (drifted db) db.accounts) db.accounts (All-Pending db db.accounts)),
  refl,
)
