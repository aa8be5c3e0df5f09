-- ===== src/Monitor/Sound/Outbox.antt =====
-- Messages of the outbox and the row that they are read from.
use gptshare.Base.{
  ℕ, ◌+◌, ◌≡◌, refl, subst, sym, ap, ◌∙◌, Bool, true, false, not, ◌&&◌, ◌||◌, Option, some, List,
  ◌∷◌, is_some, update_where, find_where, find_where-update, Bool-cases, inl, inr, arith,
}
use mathlib.Core.Option.{some-injective}
use gptshare.Pool.Message.{EventType}
use gptshare.Monitor.Types.{Life, Account, Message, Store, is_dead_normal, is_dead_banned}
use gptshare.Monitor.Store.{
  has_id, live_id, fill_row, fill_email, bump_version, message_of, enqueue_account,
}
use gptshare.Monitor.Sound.{find_where-holds}

-- From one state of an account to another that is dead in another way.
abbrev pub dies : Life → Life → Bool
dies before after =
    (not (is_dead_normal before) && is_dead_normal after)
    || (not (is_dead_banned before) && is_dead_banned after)

abbrev pub death_event : Life → EventType
death_event Life.dead_banned = EventType.dead_banned
death_event _ = EventType.updated

-- The account's row `a` became `b`, and the outbox tells of it exactly if the account died.
pub record Announced (now : ℕ) (a b : Account) (before after : List Message) : Type 0 where
  pub told :
      dies a.status b.status ≡ true
      → (after ≡ message_of (death_event b.status) now b ∷ before)
        × (b.sync_version ≡ a.sync_version + 1)
  pub quiet : dies a.status b.status ≡ false → (after ≡ before) × (b.sync_version ≡ a.sync_version)

module _ (before after : Life) where
  pub normal-dies :
      (not (is_dead_normal before) && is_dead_normal after) ≡ true → dies before after ≡ true
  normal-dies d = ground (arith, d)

  pub banned-dies :
      (not (is_dead_banned before) && is_dead_banned after) ≡ true → dies before after ≡ true
  banned-dies d = ground (arith, d)

  pub normal-event :
      (not (is_dead_normal before) && is_dead_normal after) ≡ true
      → death_event after ≡ EventType.updated
  normal-event d = ground (arith, d)

  pub banned-event :
      (not (is_dead_banned before) && is_dead_banned after) ≡ true
      → death_event after ≡ EventType.dead_banned
  banned-event d = ground (arith, d)

  pub normal-not_banned :
      (not (is_dead_normal before) && is_dead_normal after) ≡ true
      → (not (is_dead_banned before) && is_dead_banned after) ≡ false
  normal-not_banned d = ground (arith, d)

pub announce-one :
    (now : ℕ) (type : EventType) (a c : Account) (before after : List Message)
    → dies a.status c.status ≡ true
    → death_event c.status ≡ type
    → c.sync_version ≡ a.sync_version
    → after ≡ message_of type now (bump_version c) ∷ before
    → Announced now a (bump_version c) before after
announce-one now type a c before after died event version sent = record {
  told = λ d. (rw event sent, rw version refl);
  quiet = λ d. absurd (ground (arith, died, d));
}

pub announce-none :
    (now : ℕ) (a c : Account) (log : List Message)
    → dies a.status c.status ≡ false
    → c.sync_version ≡ a.sync_version
    → Announced now a c log log
announce-none now a c log lives version = record {
  told = λ d. absurd (ground (arith, lives, d));
  quiet = λ d. (refl, version);
}

-- A message takes the next version of the row that is found.
pub enqueue-eq :
    (type : EventType) (now k : ℕ) (c : Account) (s t : Store)
    → find_where (live_id k) s.accounts ≡ some c
    → enqueue_account type now k s ≡ some t
    → (find_where (live_id k) t.accounts ≡ some (bump_version c))
      × (t.outbox ≡ message_of type now (bump_version c) ∷ s.outbox)
unfolding enqueue_account
enqueue-eq type now k c s t found e =
    let mine = find_where-holds (live_id k) s.accounts c found in
    let bumped : find_where (live_id k) (update_where (live_id k) bump_version s.accounts)
        ≡ some (bump_version c) =
      find_where-update (live_id k) (live_id k) bump_version (λ x. refl) s.accounts
      ∙ rw (found, mine) refl in
    let same : some _ ≡ some t = rw (bumped, enqueue_account) at e in
    (
      subst (λ (q : Store). find_where (live_id k) q.accounts ≡ some (bump_version c))
          (some-injective _ t same) bumped,
      sym (ap (λ (q : Store). q.outbox) (some-injective _ t same)),
    )

pub has_id-live : (k : ℕ) (a : Account) → live_id k a ≡ true → has_id k a ≡ true
has_id-live k a h = ground (arith, h)

pub fill-found :
    (k : ℕ) (fills : Option ℕ × Option ℕ) (rows : List Account) (c : Account)
    → find_where (live_id k) rows ≡ some c
    → (d : Account) × (find_where (live_id k) (fill_email k fills rows) ≡ some d)
      × (d.status ≡ c.status)
      × (d.sync_version ≡ c.sync_version)
unfolding fill_email
fill-found k fills rows c found = elim (Bool-cases (is_some fills.0 || is_some fills.1)) [
  | inl e ↦ (
    fill_row k fills c,
    rw e (
        find_where-update (live_id k) (live_id k) (fill_row k fills) (λ x. refl) rows
        ∙ rw (found, find_where-holds (live_id k) rows c found) refl),
    refl,
    refl,
  )
  | inr e ↦ (c, rw e found, refl, refl)
]
