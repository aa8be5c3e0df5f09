-- ===== src/Pool/Books/Sweep.antt =====
-- The ledger under the statements that close what is over.
use gptshare.Base.{
  ℕ, ◌≡◌, refl, ◌∙◌, fun_ext, ap, Bool, true, false, not, ◌&&◌, List, [], ◌∷◌, ◌==◌, is_none,
  exists_where, exists_where-update, where_rows, arith, Bool-cases, inl, inr,
}
use gptshare.Pool.Types.{Account, Allocation, Reason, Db}
use gptshare.Pool.Tables.{
  occupies, banned_account, expired_account, group_by_account, release_all,
  release_account_capacity, has_id, free_seats,
}
use gptshare.Pool.Sweep.{
  settle, is_empty, due_allocation, expire_row, expire_due_cards, replace_row, grace_over,
  expire_grace_allocations, close_grace_allocations, card_grace, supersede_card_grace_allocations,
  banned_grace, close_banned_grace_allocations, lapsed_grace, close_expired_grace_allocations,
  active_grace,
}
use gptshare.Pool.Books.Defs.{Books, Books-same}
use gptshare.Pool.Books.Settle.{settle-Books}

pub and-right : (a b : Bool) → (a && b) ≡ true → b ≡ true
and-right a b h = ground arith

pub expire_row-idle : (l : Allocation) → occupies (expire_row l) ≡ false
unfolding occupies
expire_row-idle l = ground arith

pub replace_row-idle :
    (now : ℕ) (reason : Reason) (l : Allocation) → occupies (replace_row now reason l) ≡ false
unfolding occupies
replace_row-idle now reason l = ground arith

grace-occupies : (l : Allocation) → active_grace l ≡ true → occupies l ≡ true
unfolding occupies
grace-occupies l h = ground arith

and-left : (a b : Bool) → (a && b) ≡ true → a ≡ true
and-left a b h = ground arith

pub expire_due_cards-Books :
    (excess : ℕ → ℕ) (now : ℕ) (db : Db)
    → Books excess db
    → Books excess (expire_due_cards now db).0
unfolding expire_due_cards
expire_due_cards-Books excess now db b =
    Books-same excess (settle (due_allocation now) expire_row db) _ refl refl refl (
      settle-Books (due_allocation now) expire_row (λ d l h. and-right _ (occupies l) h)
        expire_row-idle (λ l. refl) excess db refl b)

pub expire_grace-Books :
    (excess : ℕ → ℕ) (now : ℕ) (db : Db)
    → Books excess db
    → Books excess (expire_grace_allocations now db).0
unfolding expire_grace_allocations
expire_grace-Books excess now db b =
    settle-Books (grace_over now) _ (λ d l h. grace-occupies l (and-left (active_grace l) _ h))
      (replace_row-idle now _) (λ l. refl) excess db refl b

-- A release changes no column that the clauses on accounts read.
release_all-exists :
    (q : Account → Bool)
    → ((n : ℕ) (a : Account) → q (free_seats n a) ≡ q a)
    → (g : List (ℕ × ℕ)) (rows : List Account)
    → exists_where q (release_all g rows) ≡ exists_where q rows
unfolding release_all release_account_capacity
release_all-exists q same [] rows = refl
release_all-exists q same ((k, n) ∷ g) rows =
    release_all-exists q same g (release_account_capacity k n rows)
    ∙ exists_where-update (has_id k) (free_seats n) q (same n) rows

module _ (p : Db → Allocation → Bool)
    (holds : (db : Db) (l : Allocation) → p db l ≡ true → active_grace l ≡ true) where
  close_grace-Books :
      (excess : ℕ → ℕ) (now : ℕ) (reason : Reason) (db : Db)
      → p (record db {
        accounts = release_all (group_by_account (where_rows (p db) db.allocations)) db.accounts;
      })
        ≡ p db
      → Books excess db
      → Books excess (close_grace_allocations now reason p db)
  unfolding close_grace_allocations
  close_grace-Books excess now reason db stable b =
      elim (Bool-cases (is_empty (group_by_account (where_rows (p db) db.allocations)))) [
        | inl e ↦ rw e b
        | inr e ↦ rw e (
            settle-Books p (replace_row now reason) (λ d l h. grace-occupies l (holds d l h))
              (replace_row-idle now reason) (λ l. refl) excess db stable b)
      ]

pub supersede-Books :
    (excess : ℕ → ℕ) (card_id now : ℕ) (db : Db)
    → Books excess db
    → Books excess (supersede_card_grace_allocations card_id now db)
unfolding supersede_card_grace_allocations
supersede-Books excess card_id now db b =
    close_grace-Books (card_grace card_id) (λ d l h. and-right _ (active_grace l) h) excess now _ db
      refl b

free_seats-banned : (n : ℕ) (a : Account) → banned_account (free_seats n a) ≡ banned_account a
unfolding banned_account
free_seats-banned n a = ground arith

free_seats-expired :
    (now n : ℕ) (a : Account) → expired_account now (free_seats n a) ≡ expired_account now a
unfolding expired_account
free_seats-expired now n a = ground arith

pub close_banned_grace-Books :
    (excess : ℕ → ℕ) (now : ℕ) (db : Db)
    → Books excess db
    → Books excess (close_banned_grace_allocations now db)
unfolding close_banned_grace_allocations
close_banned_grace-Books excess now db b =
    close_grace-Books banned_grace (λ d l h. and-left (active_grace l) _ h) excess now _ db
      (fun_ext λ l.
        ap (λ t. active_grace l && t)
          (release_all-exists (λ a. a.id == l.account_id && banned_account a)
            (λ n a. ap (λ t. a.id == l.account_id && t) (free_seats-banned n a))
            (group_by_account (where_rows (banned_grace db) db.allocations)) db.accounts))
      b

pub close_expired_grace-Books :
    (excess : ℕ → ℕ) (now : ℕ) (db : Db)
    → Books excess db
    → Books excess (close_expired_grace_allocations now db).0
unfolding close_expired_grace_allocations
close_expired_grace-Books excess now db b =
    close_grace-Books (lapsed_grace now) (λ d l h. and-left (active_grace l) _ h) excess now _ db
      (fun_ext λ l.
        ap (λ t. active_grace l && t)
          (release_all-exists
            (λ a.
              a.id == l.account_id
              && is_none a.archived_at
              && expired_account now a
              && not (banned_account a))
            (λ n a. simp (free_seats-banned, free_seats-expired))
            (group_by_account (where_rows (lapsed_grace now db) db.allocations)) db.accounts))
      b
