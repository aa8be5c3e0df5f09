-- ===== src/Pool/Events/Sound.antt =====
-- The ledger under ApplyMonitorAccountEvent of account_events.go.
use gptshare.Base.{
  ℕ, ◌<◌, ◌≡◌, refl, subst, Bool, ◌||◌, Option, none, some, List, [], ◌∷◌, All, All-map, find_where,
  arith, Bool-cases, inl, inr,
}
use gptshare.Pool.Types.{
  Account, Allocation, Reason, account_expired, Db, Result, ok, err, invalid_event,
  keyring_required, scan_failed, guard, >>=-eq-ok, ok-injective,
}
use gptshare.Pool.Tables.{is_dead_banned, is_dead_normal, occupancy, has_id}
use gptshare.Pool.Replace.{Due}
use gptshare.Pool.Process.{sorted_due}
use gptshare.Pool.Retire.{RetireReason}
use gptshare.Pool.Message.{Event, validate, is_free, default_account_capacity}
use gptshare.Pool.Events.{
  Feed, Outcome, sync_row, account_due, migrate_account_customers, sync_account, unscannable,
  move_on, follow_up, seen, is_stale, is_archived, provided_by, apply_new, apply_unseen,
  apply_monitor_account_event,
}
use gptshare.Pool.Books.Defs.{IsSound, nothing, Books-same}
use gptshare.Pool.Books.Sweep.{close_banned_grace-Books}
use gptshare.Pool.Books.Replace.{IsDue}
use gptshare.Pool.Books.Queue.{replace_all-Books}
use gptshare.Pool.Books.Agenda.{sorted_due-Awaits}
use gptshare.Pool.Books.Retire.{accounts-Books, archive-IsSound}

-- The next account's id is in no row.
pub record Fresh (db : Db) : Type 0 where
  pub accounts : All (λ a. a.id < db.next_account) db.accounts
  pub allocations : All (λ l. l.account_id < db.next_account) db.allocations

pub no_seat : (k : ℕ) (ls : List Allocation) → All (λ l. l.account_id < k) ls → occupancy k ls ≡ 0
unfolding occupancy
no_seat k [] h = refl
no_seat k (l ∷ ls) h = ground (arith, no_seat k ls h.1, h.0)

account_due-facts :
    (now k : ℕ) (reason : Reason) (db : Db) (l : Allocation) (x : List ℕ × Due)
    → account_due now k reason db l ≡ some x
    → (x.1.allocation_id ≡ l.id) × IsDue x.1.old_account_id l
unfolding account_due
account_due-facts now k reason db l x h = ground arith

move_on-IsSound :
    (now k : ℕ) (reason : Reason) (retire_reason : RetireReason) (db : Db)
    → IsSound db
    → IsSound (move_on now k reason retire_reason db).0
unfolding move_on migrate_account_customers
move_on-IsSound now k reason retire_reason db b =
    let pick = account_due now k reason db in
    let (awaits, apart) = sorted_due-Awaits pick (account_due-facts now k reason db) db b.ordered in
    archive-IsSound retire_reason now k _
      (replace_all-Books nothing now (sorted_due pick db.allocations) db awaits apart b)

follow_up-IsSound :
    (now : ℕ) (e : Event) (k : ℕ) (db : Db) → IsSound db → IsSound (follow_up now e k db).0
unfolding follow_up
follow_up-IsSound now e k db b = elim (Bool-cases (is_dead_banned e.status)) [
  | inl d ↦ rw d (
      move_on-IsSound now k Reason.banned RetireReason.banned _
        (close_banned_grace-Books nothing now db b))
  | inr d ↦ elim (Bool-cases (is_dead_normal e.status || is_free e.plan)) [
    | inl n ↦ rw (d, n) (move_on-IsSound now k account_expired RetireReason.expired db b)
    | inr n ↦ rw (d, n) b
  ]
]

sync_account-IsSound :
    (keyring : Bool) (setting : Option (Option ℕ)) (now : ℕ) (e : Event) (found : Option Account)
    (db : Db) {s : Db × ℕ × Bool}
    → IsSound db
    → Fresh db
    → sync_account keyring setting now e found db ≡ ok s
    → IsSound s.0
unfolding sync_account
sync_account-IsSound keyring setting now e none db b f h =
    let (u, g, h1) = >>=-eq-ok (guard keyring keyring_required) _ h in
    let (capacity, c, h2) = >>=-eq-ok (default_account_capacity setting) _ h1 in
    subst (λ (q : Db × ℕ × Bool). IsSound q.0) (ok-injective h2)
      (record {
        distinct = (
          All-map (λ a. a.id < db.next_account) (λ a. a.id ≡ db.next_account → ⊥)
              (λ a l i. omega arith) db.accounts f.accounts,
          b.distinct,
        );
        owed = (omega (arith, no_seat db.next_account db.allocations f.allocations), b.owed);
        within = (omega arith, b.within);
        ordered = b.ordered;
        one_primary = b.one_primary;
      })
sync_account-IsSound keyring setting now e (some a) db {s} b f h =
    elim (Bool-cases (unscannable a)) [
      | inl u ↦
          (let refused : ◌≡◌ {A = Result (Db × ℕ × Bool)} (err scan_failed) (ok s) = rw u at h in
            cc)
      | inr u ↦
          subst (λ (q : Db × ℕ × Bool). IsSound q.0) (ok-injective (rw u at h))
            (accounts-Books (has_id a.id) (sync_row now e) db (λ x. refl) (λ x p o. o)
              (λ x p o w. w) b)
    ]

apply_new-IsSound :
    (keyring : Bool) (setting : Option (Option ℕ)) (now : ℕ) (e : Event) (found : Option Account)
    (feed : Feed) {r : Feed × Outcome}
    → IsSound feed.db
    → Fresh feed.db
    → apply_new keyring setting now e found feed ≡ ok r
    → IsSound r.0.db
unfolding apply_new
apply_new-IsSound keyring setting now e found feed b f h =
    let (s, given, h1) = >>=-eq-ok (sync_account keyring setting now e found feed.db) _ h in
    let moved = (follow_up now e s.1 s.0).0 in
    subst (λ (q : Feed × Outcome). IsSound q.0.db) (ok-injective h1)
      (Books-same nothing moved _ refl refl refl (
        follow_up-IsSound now e s.1 s.0
          (sync_account-IsSound keyring setting now e found feed.db b f given)))

apply_unseen-IsSound :
    (keyring : Bool) (setting : Option (Option ℕ)) (now : ℕ) (e : Event) (found : Option Account)
    (feed : Feed) {r : Feed × Outcome}
    → IsSound feed.db
    → Fresh feed.db
    → apply_unseen keyring setting now e found feed ≡ ok r
    → IsSound r.0.db
unfolding apply_unseen
apply_unseen-IsSound keyring setting now e found feed b f h = elim (Bool-cases (is_stale e found)) [
  | inl s ↦ subst (λ (q : Feed × Outcome). IsSound q.0.db) (ok-injective (rw s at h)) b
  | inr s ↦ elim (Bool-cases (is_archived found)) [
    | inl a ↦ subst (λ (q : Feed × Outcome). IsSound q.0.db) (ok-injective (rw (s, a) at h)) b
    | inr a ↦ apply_new-IsSound keyring setting now e found feed b f (rw (s, a) at h)
  ]
]

-- An account event that is accepted, on a sound database whose next account id is in no row, leaves a
-- sound database: also when it creates the account, moves its customers and archives it.
pub event-IsSound :
    (keyring : Bool) (setting : Option (Option ℕ)) (now : ℕ) (e : Event) (feed : Feed)
    {r : Feed × Outcome}
    → IsSound feed.db
    → Fresh feed.db
    → apply_monitor_account_event keyring setting now e feed ≡ ok r
    → IsSound r.0.db
unfolding apply_monitor_account_event
event-IsSound keyring setting now e feed {r} b f h = elim (Bool-cases (validate e)) [
  | inr v ↦
      (let refused : ◌≡◌ {A = Result (Feed × Outcome)} (err invalid_event) (ok r) = rw v at h in cc)
  | inl v ↦ elim (Bool-cases (seen e feed.processed)) [
    | inl s ↦ subst (λ (q : Feed × Outcome). IsSound q.0.db) (ok-injective (rw (v, s) at h)) b
    | inr s ↦
        apply_unseen-IsSound keyring setting now e (find_where (provided_by e) feed.db.accounts)
          feed b f (rw (v, s) at h)
  ]
]
