-- ===== src/Pool/Events/Order.antt =====
-- Events that come twice, late, or for an account that is archived.
use gptshare.Base.{ℕ, ◌≡◌, subst, Bool, true, Option, List, find_where, arith, Bool-cases, inl, inr}
use gptshare.Pool.Types.{Account, Result, ok, err, invalid_event, >>=-eq-ok, ok-injective}
use gptshare.Pool.Message.{Event, validate}
use gptshare.Pool.Events.{
  Disposition, Processed, Feed, Outcome, provided_by, sync_account, log_event, untouched, seen,
  is_stale, is_archived, apply_new, ignored, apply_unseen, apply_monitor_account_event,
}

apply_new-seen :
    (keyring : Bool) (setting : Option (Option ℕ)) (now : ℕ) (e : Event) (found : Option Account)
    (feed : Feed) {r : Feed × Outcome}
    → apply_new keyring setting now e found feed ≡ ok r
    → seen e r.0.processed ≡ true
unfolding apply_new
apply_new-seen keyring setting now e found feed {r} h =
    let (s, given, h1) = >>=-eq-ok (sync_account keyring setting now e found feed.db) _ h in
    subst (λ (q : Feed × Outcome). seen e q.0.processed ≡ true) (ok-injective h1) (recorded _)
  where
    recorded : (log : List Processed) → seen e (log_event e Disposition.applied log) ≡ true
    recorded log = ground arith

apply_unseen-seen :
    (keyring : Bool) (setting : Option (Option ℕ)) (now : ℕ) (e : Event) (found : Option Account)
    (feed : Feed) {r : Feed × Outcome}
    → apply_unseen keyring setting now e found feed ≡ ok r
    → seen e r.0.processed ≡ true
unfolding apply_unseen
apply_unseen-seen keyring setting now e found feed {r} h = elim (Bool-cases (is_stale e found)) [
  | inl s ↦ ignored-seen Disposition.stale (rw s at h)
  | inr s ↦ elim (Bool-cases (is_archived found)) [
    | inl a ↦ ignored-seen Disposition.ignored_archived (rw (s, a) at h)
    | inr a ↦ apply_new-seen keyring setting now e found feed (rw (s, a) at h)
  ]
]
  where
    ignored-seen : (d : Disposition) → ignored e d feed ≡ ok r → seen e r.0.processed ≡ true
    ignored-seen d i =
        subst (λ (q : Feed × Outcome). seen e q.0.processed ≡ true) (ok-injective i) (ground arith)

-- After an event was accepted, whatever became of it, its delivery at any later time finds a
-- duplicate and changes nothing.
pub redelivery :
    (keyring : Bool) (setting : Option (Option ℕ)) (now later : ℕ) (e : Event) (feed : Feed)
    {r : Feed × Outcome}
    → apply_monitor_account_event keyring setting now e feed ≡ ok r
    → apply_monitor_account_event keyring setting later e r.0
      ≡ ok (r.0, untouched Disposition.duplicate)
unfolding apply_monitor_account_event apply_unseen
redelivery keyring setting now later e feed {r} h = elim (Bool-cases (validate e)) [
  | inr v ↦
      (let refused : ◌≡◌ {A = Result (Feed × Outcome)} (err invalid_event) (ok r) = rw v at h in cc)
  | inl v ↦ elim (Bool-cases (seen e feed.processed)) [
    | inl s ↦
        (let same : (feed, untouched Disposition.duplicate) ≡ r = ok-injective (rw (v, s) at h) in
          subst
            (λ (q : Feed × Outcome).
              apply_monitor_account_event keyring setting later e q.0
              ≡ ok (q.0, untouched Disposition.duplicate))
            same (rw (v, s)))
    | inr s ↦ rw (
      v,
      apply_unseen-seen keyring setting now e (find_where (provided_by e) feed.db.accounts) feed
          (rw (v, s) at h),
    )
  ]
]
