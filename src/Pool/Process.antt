-- ===== src/Pool/Process.antt =====
-- The hourly scan: ProcessReplacements of repository.go.
use gptshare.Base.{
  ℕ, suc, ◌+◌, Bool, ◌&&◌, ◌||◌, Option, none, some, List, [], ◌∷◌, map, leb, ltb, if◌then◌else◌,
}
use gptshare.Time.{datetime, day}
use gptshare.Pool.Types.{
  Account, Allocation, Reason, account_expired, account_expiring, Replacement,
  availability_reconciled, Db,
}
use gptshare.Pool.Tables.{
  is_redeemed, is_primary, is_dead_banned, is_dead_normal, is_banned, is_expired, some_after,
}
use gptshare.Pool.Candidate.{find_account, find_card, lex_leb}
use gptshare.Pool.Sweep.{
  expire_due_cards, expire_grace_allocations, close_expired_grace_allocations,
  close_banned_grace_allocations,
}
use gptshare.Pool.Replace.{Due, replace_one_allocation_isolated}
use gptshare.Pool.Reconcile.{reconcile_allocation_counts, reconcile_account_availability}
use gptshare.Pool.Retire.{RetireReason, retire_offline_accounts}

pub record Run : Type 0 where
  pub replaced : List Replacement
  pub grace_expired : ℕ
  pub failed : ℕ
  pub retired : List (ℕ × RetireReason)
  pub cards_expired : ℕ
  pub availability_restored : ℕ
  pub marked_full : ℕ
  pub allocation_counts_fixed : ℕ

abbrev at_risk : ℕ → Account → Bool
at_risk now a =
    is_dead_banned a.monitor_status
    || is_banned a.status
    || is_dead_normal a.monitor_status
    || is_expired a.status
    || leb (datetime a.account_expiry) (datetime (now + day))

unfoldable pub due_reason : ℕ → Account → Reason
due_reason now a =
    if is_dead_banned a.monitor_status || is_banned a.status
    then Reason.banned
    else if is_dead_normal a.monitor_status || is_expired a.status || leb a.account_expiry now
    then account_expired
    else account_expiring

-- The WHERE clause on a joined row, and the item that is made of it with its sort keys.
unfoldable pub due_join : ℕ → Allocation → Option ℕ → Account → Option (List ℕ × Due)
due_join now l none a = none
due_join now l (some expires) a =
    if some_after now (some expires) && at_risk now a
    then some (
      (if is_dead_banned a.monitor_status then 0 else 1) ∷ datetime a.account_expiry ∷ l.id ∷ [],
      record {
        allocation_id = l.id;
        card_id = l.card_id;
        old_account_id = l.account_id;
        card_expires_at = expires;
        reason = due_reason now a;
      },
    )
    else none

unfoldable pub due_item : ℕ → Db → Allocation → Option (List ℕ × Due)
unfolding due_join
due_item now db l =
    if l.active && is_primary l.allocation_state
    then elim (find_card l.card_id db.cards) [
      | none ↦ none
      | some c ↦ elim (find_account l.account_id db.accounts) [
        | none ↦ none
        | some a ↦ if is_redeemed c.status then due_join now l c.expires_at a else none
      ]
    ]
    else none

-- The rows that a SELECT makes items of.
unfoldable pub due_items :
    (Allocation → Option (List ℕ × Due)) → List Allocation → List (List ℕ × Due)
due_items pick [] = []
due_items pick (l ∷ ls) =
    let rest = due_items pick ls in elim (pick l) [ none ↦ rest | some item ↦ item ∷ rest ]

-- ORDER BY
unfoldable pub insert_by : List ℕ × Due → List (List ℕ × Due) → List (List ℕ × Due)
insert_by x [] = x ∷ []
insert_by x (y ∷ ys) = let rest = insert_by x ys in if lex_leb x.0 y.0 then x ∷ y ∷ ys else y ∷ rest

unfoldable pub sort_by : List (List ℕ × Due) → List (List ℕ × Due)
sort_by [] = []
sort_by (x ∷ xs) = insert_by x (sort_by xs)

unfoldable pub sorted_due : (Allocation → Option (List ℕ × Due)) → List Allocation → List Due
sorted_due pick ls = map (λ x. x.1) (sort_by (due_items pick ls))

unfoldable pub replacements_due : ℕ → Db → List Due
replacements_due now db = sorted_due (due_item now db) db.allocations

unfoldable pub tally : Option Replacement → Db × List Replacement × ℕ → Db × List Replacement × ℕ
tally none (db, replaced, failed) = (db, replaced, suc failed)
tally (some r) (db, replaced, failed) = (db, r ∷ replaced, failed)

-- The loop over the items: the database, the moves made and the number of failures.
unfoldable pub replace_all : ℕ → List Due → Db → Db × List Replacement × ℕ
unfolding tally
replace_all now [] db = (db, [], 0)
replace_all now (item ∷ items) db =
    let moved = replace_one_allocation_isolated now item db in
    tally moved.done (replace_all now items moved.db)

-- The four steps that close what is over, before any card is moved.
unfoldable pub close_overdue : ℕ → Db → Db × ℕ × ℕ
close_overdue now db =
    let (expired, cards_expired) = expire_due_cards now db in
    let (graced, grace_expired) = expire_grace_allocations now expired in
    let (lapsed, account_grace) = close_expired_grace_allocations now graced in
    (close_banned_grace_allocations now lapsed, cards_expired, grace_expired + account_grace)

-- The corrections after the moves.
unfoldable pub reconcile : ℕ → Db → Db × ℕ × ℕ × ℕ
reconcile now db =
    let (counted, fixed) = reconcile_allocation_counts db in
    let (aligned, restored, filled) = reconcile_account_availability now counted in
    (
      if ltb 0 restored || ltb 0 filled
          then record aligned { audits = availability_reconciled ∷ aligned.audits }
          else aligned,
      fixed,
      restored,
      filled,
    )

unfoldable pub process_replacements : ℕ → Db → Db × Run
process_replacements now db =
    let (closed, cards_expired, grace_expired) = close_overdue now db in
    let (moved, replaced, failed) = replace_all now (replacements_due now closed) closed in
    let (swept, retired) = retire_offline_accounts now moved in
    let (final, fixed, restored, filled) = reconcile now swept in
    (
      final,
      record {
        replaced = replaced;
        grace_expired = grace_expired;
        failed = failed;
        retired = retired;
        cards_expired = cards_expired;
        availability_restored = restored;
        marked_full = filled;
        allocation_counts_fixed = fixed;
      },
    )
