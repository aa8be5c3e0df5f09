-- ===== src/Pool/Steps.antt =====
-- The transactions of the account pool as steps from one state of the database to the next: the
-- methods RedeemCodeWithBinding (a redemption, or the claim that follows a conflict),
-- ExtendCardWithMonitor, ApplyCardAction, UpdateAccountMonitorStatus, ExpireDueCards and
-- ProcessReplacements of Repository, in any order and at any times.
use gptshare.Base.{
  ℕ, ◌≡◌, subst, Bool, true, Option, ◌==◌, exists_where, find_where, Bool-cases, inl, inr,
}
use gptshare.Pool.CardAction.{Action, Cards, Outcome, apply_card_action}
use gptshare.Pool.CardAction.Sound.{card_action-IsSound}
use gptshare.Pool.Admin.Update.{update_account_monitor_status}
use gptshare.Pool.Admin.Sound.{monitor_status-IsSound}
use gptshare.Pool.Types.{
  MonitorStatus, Allocation, Binding, Db, ok, no_rows, or_fail, >>=-eq-ok, ok-injective,
}
use gptshare.Pool.Redeem.{consume_bind_nonce, redeem_card}
use gptshare.Pool.Claim.{Claim, runs, of_card, take_over, claim_row, claim_card}
use gptshare.Pool.Sweep.{expire_due_cards}
use gptshare.Pool.Reconcile.{reconcile_allocation_counts, reconcile_account_availability}
use gptshare.Pool.Process.{process_replacements}
use gptshare.Pool.Extend.{Mode, extend_card}
use gptshare.Pool.Extend.Sound.{extend-IsSound}
use gptshare.Pool.Books.Defs.{IsSound, nothing, Books-same}
use gptshare.Pool.Books.Redeem.{redeem-IsSound, consume-rows, backfill-rows}
use gptshare.Pool.Books.Sweep.{expire_due_cards-Books}
use gptshare.Pool.Books.Retire.{reconcile_counts-IsSound, availability-IsSound}
use gptshare.Pool.Books.Process.{process-IsSound}

-- ExpireDueCards
unfoldable pub settle_due_cards : ℕ → Db → Db × ℕ
settle_due_cards now db =
    let (expired, count) = expire_due_cards now db in
    ((reconcile_account_availability now (reconcile_allocation_counts expired).0).0, count)

-- A call that ends in an error rolls back and is no step.
pub data Step : Db → Db → Type 0 where
  redeems :
      {db : Db} (now : ℕ) (has_keyring monitor_available : Bool) (code_hash : ℕ)
      (binding : Option Binding) {r : Db × Allocation}
      → redeem_card now has_keyring monitor_available code_hash binding db ≡ ok r
      → Step db r.0
  claims :
      {db : Db} (now : ℕ) (has_keyring : Bool) (code_hash : ℕ) (binding : Option Binding)
      {r : Db × Claim}
      → claim_card now has_keyring code_hash binding db ≡ ok r
      → Step db r.0
  extends :
      {db : Db} (now card_id days : ℕ) (monitor_available : Bool) {r : Db × Mode}
      → extend_card now card_id days monitor_available db ≡ ok r
      → Step db r.0
  acts :
      (s : Cards) (now : ℕ) (action : Action) (target_hash source_hash : ℕ)
      (preview monitor_available : Bool) {r : Cards × Outcome}
      → apply_card_action now action target_hash source_hash preview monitor_available s ≡ ok r
      → Step s.db r.0.db
  reports :
      {db next : Db} (now k : ℕ) (m : Option ℕ) (status : Option MonitorStatus)
      → update_account_monitor_status now k m status db ≡ ok next
      → Step db next
  expires : {db : Db} (now : ℕ) → Step db (settle_due_cards now db).0
  scans : {db : Db} (now : ℕ) → Step db (process_replacements now db).0

pub data Reach (start : Db) : Db → Type 0 where
  begin : Reach start start
  then_ : {db next : Db} → Reach start db → Step db next → Reach start next

take_over-IsSound :
    (has_keyring : Bool) (binding : Option Binding) (card_id : ℕ) (db : Db) {r : Db × Claim}
    → IsSound db
    → take_over has_keyring binding card_id db ≡ ok r
    → IsSound r.0
unfolding take_over
take_over-IsSound kr binding card_id db b h =
    let (bound, spent, h1) = >>=-eq-ok (consume_bind_nonce binding db) _ h in
    let (ra, rl, rn, rc) = consume-rows binding db spent in
    let (fa, fl, fn) = backfill-rows kr true binding card_id bound in
    subst (λ (q : Db × Claim). IsSound q.0) (ok-injective h1)
      (Books-same nothing bound _ fa fl fn (Books-same nothing db bound ra rl rn b))

claim-IsSound :
    (now : ℕ) (has_keyring : Bool) (code_hash : ℕ) (binding : Option Binding) (db : Db)
    {r : Db × Claim}
    → IsSound db
    → claim_card now has_keyring code_hash binding db ≡ ok r
    → IsSound r.0
unfolding claim_card claim_row
claim-IsSound now kr hash binding db b h =
    let (card, found, h1) =
      >>=-eq-ok (or_fail (find_where (λ c. c.code_hash == hash) db.cards) no_rows) _ h in
    elim (Bool-cases (runs now card)) [
      | inr e ↦ subst (λ (q : Db × Claim). IsSound q.0) (ok-injective (rw e at h1)) b
      | inl e ↦ elim (Bool-cases (exists_where (of_card card.id) db.events)) [
        | inl x ↦ subst (λ (q : Db × Claim). IsSound q.0) (ok-injective (rw (e, x) at h1)) b
        | inr x ↦ take_over-IsSound kr binding card.id db b (rw (e, x) at h1)
      ]
    ]

settle_due_cards-IsSound : (now : ℕ) (db : Db) → IsSound db → IsSound (settle_due_cards now db).0
unfolding settle_due_cards
settle_due_cards-IsSound now db b =
    availability-IsSound now _
      (reconcile_counts-IsSound _ (expire_due_cards-Books nothing now db b))

pub Step-IsSound : {db next : Db} → IsSound db → Step db next → IsSound next
Step-IsSound {db} b (redeems now kr ma hash binding h) =
    redeem-IsSound now kr ma hash binding db b h
Step-IsSound {db} b (claims now kr hash binding h) = claim-IsSound now kr hash binding db b h
Step-IsSound {db} b (extends now card_id days ma h) = extend-IsSound now card_id days ma db b h
Step-IsSound b (acts s now action th sh preview m h) =
    card_action-IsSound now action th sh preview m s b h
Step-IsSound {db} b (reports now k m status h) = monitor_status-IsSound now k m status db b h
Step-IsSound {db} b (expires now) = settle_due_cards-IsSound now db b
Step-IsSound {db} b (scans now) = process-IsSound now db b

-- Whatever sequence of redemptions, claims, extensions, card actions, reported monitor statuses,
-- expirations and scans leads from a sound database to another, that one is sound: each account stores
-- as many seats as are held, never more than it has, and no card has two active primary seats.
pub Reach-IsSound : {start db : Db} → IsSound start → Reach start db → IsSound db
Reach-IsSound b begin = b
Reach-IsSound b (then_ before step) = Step-IsSound (Reach-IsSound b before) step
