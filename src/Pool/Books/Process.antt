-- ===== src/Pool/Books/Process.antt =====
-- The ledger under ProcessReplacements of repository.go.
use gptshare.Base.{ℕ, refl, ◌||◌, ltb, Bool-cases, inl, inr}
use gptshare.Pool.Types.{Db}
use gptshare.Pool.Reconcile.{reconcile_allocation_counts, reconcile_account_availability}
use gptshare.Pool.Process.{close_overdue, reconcile, replacements_due, process_replacements}
use gptshare.Pool.Books.Defs.{IsSound, nothing, Books-same}
use gptshare.Pool.Books.Sweep.{
  expire_due_cards-Books, expire_grace-Books, close_banned_grace-Books, close_expired_grace-Books,
}
use gptshare.Pool.Books.Queue.{replace_all-Books}
use gptshare.Pool.Books.Agenda.{replacements_due-Awaits}
use gptshare.Pool.Books.Retire.{retire-IsSound, reconcile_counts-IsSound, availability-IsSound}

close_overdue-IsSound : (now : ℕ) (db : Db) → IsSound db → IsSound (close_overdue now db).0
unfolding close_overdue
close_overdue-IsSound now db b = close_banned_grace-Books nothing now _ (
    close_expired_grace-Books nothing now _
      (expire_grace-Books nothing now _ (expire_due_cards-Books nothing now db b)))

reconcile-IsSound : (now : ℕ) (db : Db) → IsSound db → IsSound (reconcile now db).0
unfolding reconcile
reconcile-IsSound now db b =
    let counted = (reconcile_allocation_counts db).0 in
    let aligned = reconcile_account_availability now counted in
    let good : IsSound aligned.0 =
      availability-IsSound now counted (reconcile_counts-IsSound db b) in
    elim (Bool-cases (ltb 0 aligned.1 || ltb 0 aligned.2)) [
      | inl e ↦ rw e (Books-same nothing aligned.0 _ refl refl refl good)
      | inr e ↦ rw e good
    ]

-- From a sound database a scan of ProcessReplacements leaves a sound one, whatever fails in it.
pub process-IsSound : (now : ℕ) (db : Db) → IsSound db → IsSound (process_replacements now db).0
unfolding process_replacements
process-IsSound now db b =
    let closed = close_overdue-IsSound now db b in
    let (awaits, apart) = replacements_due-Awaits now (close_overdue now db).0 closed.ordered in
    reconcile-IsSound now _ (
      retire-IsSound now _ (
        replace_all-Books nothing now (replacements_due now (close_overdue now db).0)
          (close_overdue now db).0 awaits apart closed))
