-- ===== src/Pool/Candidate/Fits.antt =====
-- The WHERE clause of selectCardCandidate, described condition by condition.
use mathlib.Core.List.Memᴰ
use mathlib.Core.List.{Memᴰ}
use gptshare.Base.{
  ℕ, ◌<◌, ◌≡◌, ◌≢◌, ◌⊎◌, inl, inr, ◌↔◌, refl, sym, ap, Bool, true, false, ◌&&◌, ◌||◌, Option, none,
  some, List, [], ◌∷◌, ltb, ◌==◌, ==_iff, is_none, sql_eq, exists_where, arith, Bool-cases,
  Option-cases,
}
use gptshare.Time.{datetime}
use gptshare.Pool.Types.{
  MonitorStatus, AccountStatus, CardStatus, AllocationState, Account, Card, Allocation, Db,
}
use gptshare.Pool.Tables.{
  allocatable, after, some_after, is_redeemed, is_primary, is_grace, is_available, is_dead_banned,
}
use gptshare.Pool.Candidate.{
  find_account, find_card, group_of, has_username, holds, not_excluded, group_conflict, eligible,
}

-- A time that is set and later than now.
abbrev pub Later : ℕ → Option ℕ → Type 0
Later now none = ⊥
Later now (some t) = datetime now < datetime t

-- Another running card `c` of the group holds, by the seat `l`, an account of the same name.
pub record Rival (now card_id : ℕ) (db : Db) (a : Account) (l : Allocation) (c : Card)
    : Type 0 where
  pub seat : Memᴰ l db.allocations
  pub card : Memᴰ c db.cards
  pub of_card : l.card_id ≡ c.id
  pub own : Card
  pub group : ℕ
  pub found_own : find_card card_id db.cards ≡ some own
  pub own_group : own.group_id ≡ some group
  pub same_group : c.group_id ≡ some group
  pub other_card : c.id ≢ card_id
  pub redeemed : c.status ≡ CardStatus.redeemed
  pub running : Later now c.expires_at
  pub active : l.active ≡ true
  pub valid : datetime now < datetime l.valid_until
  pub held :
      (l.allocation_state ≡ AllocationState.primary)
      ⊎ ((l.allocation_state ≡ AllocationState.grace) × Later now l.grace_until)
  pub account : Account
  pub found_account : find_account l.account_id db.accounts ≡ some account
  pub same_name : account.username ≡ a.username

-- An account with a seat to give, which is not of the excluded account's name, and whose name no
-- other card of the group holds.
pub record Fits (now excluded card_id : ℕ) (db : Db) (a : Account) : Type 0 where
  pub unexpired : datetime now < datetime a.account_expiry
  pub unarchived : a.archived_at ≡ none
  pub available : a.status ≡ AccountStatus.available
  pub room : a.current_allocations < a.max_concurrent_users
  pub unbanned : a.monitor_status ≢ MonitorStatus.dead_banned
  pub elsewhere :
      (excluded ≡ 0)
      ⊎ ((x : Account) × (find_account excluded db.accounts ≡ some x) × (a.username ≢ x.username))
  pub apart : (l : Allocation) (c : Card) → Rival now card_id db a l c → ⊥

primary_state : (s : AllocationState) → is_primary s ≡ true → s ≡ AllocationState.primary
primary_state AllocationState.primary h = refl
primary_state AllocationState.grace h = cc
primary_state AllocationState.replaced h = cc
primary_state AllocationState.expired h = cc
primary_state AllocationState.revoked h = cc

grace_state : (s : AllocationState) → is_grace s ≡ true → s ≡ AllocationState.grace
grace_state AllocationState.grace h = refl
grace_state AllocationState.primary h = cc
grace_state AllocationState.replaced h = cc
grace_state AllocationState.expired h = cc
grace_state AllocationState.revoked h = cc

redeemed_status : (s : CardStatus) → is_redeemed s ≡ true → s ≡ CardStatus.redeemed
redeemed_status CardStatus.redeemed h = refl
redeemed_status CardStatus.unused h = cc
redeemed_status CardStatus.expired h = cc
redeemed_status CardStatus.revoked h = cc
redeemed_status CardStatus.consumed h = cc

available_status : (s : AccountStatus) → is_available s ≡ true → s ≡ AccountStatus.available
available_status AccountStatus.available h = refl
available_status AccountStatus.full h = cc
available_status AccountStatus.disabled h = cc
available_status AccountStatus.banned h = cc
available_status AccountStatus.expired h = cc
available_status AccountStatus.pending_credentials h = cc
available_status AccountStatus.unknown_monitor h = cc

banned_status : (s : MonitorStatus) → is_dead_banned s ≡ true → s ≡ MonitorStatus.dead_banned
banned_status MonitorStatus.dead_banned h = refl
banned_status MonitorStatus.alive h = cc
banned_status MonitorStatus.unknown h = cc
banned_status MonitorStatus.unknown_monitor h = cc
banned_status MonitorStatus.dead_normal h = cc
banned_status MonitorStatus.not_found h = cc

is_none_eq : (o : Option ℕ) → is_none o ≡ true → o ≡ none
is_none_eq none h = refl
is_none_eq (some n) h = cc

after-Later : (now : ℕ) (t : Option ℕ) → (some_after now t ≡ true) ↔ Later now t
after-Later now none = (λ h. absurd (ground (arith, h)), λ l. absurd l)
after-Later now (some t) = (λ h. ground (arith, h), λ l. ground (arith, l))

sql_eq-both : (m o : Option ℕ) → sql_eq m o ≡ true → (g : ℕ) × (m ≡ some g) × (o ≡ some g)
sql_eq-both none o h = cc
sql_eq-both (some g) none h = cc
sql_eq-both (some g) (some k) h = (g, refl, ap some (sym ((==_iff g k).0 (ground (arith, h)))))

group_of-own :
    (o : Option Card) {g : ℕ}
    → group_of o ≡ some g
    → (own : Card) × (o ≡ some own) × (own.group_id ≡ some g)
group_of-own none h = cc
group_of-own (some own) h = (own, refl, h)

username_of :
    (u : ℕ) (o : Option Account)
    → has_username u o ≡ true
    → (x : Account) × (o ≡ some x) × (x.username ≡ u)
username_of u none h = cc
username_of u (some x) h = (x, refl, (==_iff x.username u).0 h)

module _ {ℓ} {A : Type ℓ} (p : A → Bool) where
  exists_where-found : (xs : List A) → exists_where p xs ≡ true → (x : A) × Memᴰ x xs × (p x ≡ true)
  exists_where-found [] h = cc
  exists_where-found (y ∷ xs) h = elim (Bool-cases (p y)) [
    | inl e ↦ (y, Memᴰ.head refl, e)
    | inr e ↦ (let (x, m, q) = exists_where-found xs (rw e at h) in (x, Memᴰ.tail m, q))
  ]

  exists_where-member : (xs : List A) (x : A) → Memᴰ x xs → p x ≡ true → exists_where p xs ≡ true
  exists_where-member [] x m q = absurd (Memᴰ.not-nil m)
  exists_where-member (y ∷ xs) x m q = elim (Memᴰ.cases_cons m) [
    | inl same ↦ ground (arith, same, q)
    | inr later ↦ ground (arith, exists_where-member xs x later q)
  ]

module _ (now card_id : ℕ) (db : Db) (a : Account) where
  -- The subquery's row, of this account and card.
  abbrev holding : Allocation → Card → Bool
  holding = holds now (group_of (find_card card_id db.cards)) card_id a db.accounts

  held_state :
      (l : Allocation)
      → (is_primary l.allocation_state
          || (is_grace l.allocation_state && some_after now l.grace_until))
        ≡ true
      → (l.allocation_state ≡ AllocationState.primary)
        ⊎ ((l.allocation_state ≡ AllocationState.grace) × Later now l.grace_until)
  held_state l h = elim (Bool-cases (is_primary l.allocation_state)) [
    | inl e ↦ inl (primary_state l.allocation_state e)
    | inr e ↦ inr (
      grace_state l.allocation_state (ground (arith, e, h)),
      (after-Later now l.grace_until).0 (ground (arith, e, h)),
    )
  ]

  holding-Rival :
      (l : Allocation) (c : Card)
      → Memᴰ l db.allocations
      → Memᴰ c db.cards
      → holding l c ≡ true
      → Rival now card_id db a l c
  holding-Rival l c ml mc h =
      let (group, same_group, of_own) =
        sql_eq-both c.group_id (group_of (find_card card_id db.cards)) (ground (arith, h)) in
      let (own, found_own, own_group) = group_of-own (find_card card_id db.cards) of_own in
      let (account, found_account, same_name) =
        username_of a.username (find_account l.account_id db.accounts) (ground (arith, h)) in
      record {
        seat = ml;
        card = mc;
        of_card = ground (arith, h);
        own = own;
        group = group;
        found_own = found_own;
        own_group = own_group;
        same_group = same_group;
        other_card = λ e. absurd (ground (arith, h, e));
        redeemed = redeemed_status c.status (ground (arith, h));
        running = (after-Later now c.expires_at).0 (ground (arith, h));
        active = ground (arith, h);
        valid = ground (arith, h);
        held = held_state l (ground (arith, h));
        account = account;
        found_account = found_account;
        same_name = same_name;
      }

  Rival-holding : (l : Allocation) (c : Card) → Rival now card_id db a l c → holding l c ≡ true
  Rival-holding l c r =
      let later = (after-Later now c.expires_at).1 r.running in
      let seat : (is_primary l.allocation_state
            || (is_grace l.allocation_state && some_after now l.grace_until))
          ≡ true =
        elim r.held [
          | inl e ↦ rw e refl
          | inr (e, t) ↦ rw (e, (after-Later now l.grace_until).1 t) refl
        ] in
      let group : sql_eq c.group_id (group_of (find_card card_id db.cards)) ≡ true =
        rw (r.same_group, r.found_own, r.own_group) (ground arith) in
      let named : has_username a.username (find_account l.account_id db.accounts) ≡ true =
        rw (r.found_account, r.same_name) (ground arith) in
      let row : (l.card_id == c.id) ≡ true = ground (arith, r.of_card) in
      let other : (c.id == card_id) ≡ false = ground (arith, r.other_card) in
      let status : is_redeemed c.status ≡ true = rw r.redeemed refl in
      let valid : after now l.valid_until ≡ true = ground (arith, r.valid) in
      rw (row, group, other, status, later, r.active, valid, seat, named) refl

  conflict-Rival :
      group_conflict now card_id db a ≡ true
      → (l : Allocation) × (c : Card) × Rival now card_id db a l c
  unfolding group_conflict
  conflict-Rival h =
      let (l, ml, some_card) =
        exists_where-found (λ l. exists_where (holding l) db.cards) db.allocations h in
      let (c, mc, holds_it) = exists_where-found (holding l) db.cards some_card in
      (l, c, holding-Rival l c ml mc holds_it)

  Rival-conflict :
      (l : Allocation) (c : Card)
      → Rival now card_id db a l c
      → group_conflict now card_id db a ≡ true
  unfolding group_conflict
  Rival-conflict l c r =
      exists_where-member (λ l. exists_where (holding l) db.cards) db.allocations l r.seat
        (exists_where-member (holding l) db.cards c r.card (Rival-holding l c r))

  module _ (excluded : ℕ) where
    not_excluded-elsewhere :
        not_excluded excluded db.accounts a ≡ true
        → (excluded ≡ 0)
          ⊎ ((x : Account) × (find_account excluded db.accounts ≡ some x)
              × (a.username ≢ x.username))
    unfolding not_excluded
    not_excluded-elsewhere h = elim (Bool-cases (excluded == 0)) [
      | inl e ↦ inl ((==_iff excluded 0).0 e)
      | inr e ↦ elim (Option-cases (find_account excluded db.accounts)) [
        | inl n ↦ absurd (ground (arith, e, n, h))
        | inr (x, n) ↦ inr (x, n, λ q. absurd (ground (arith, e, n, h, q)))
      ]
    ]

    elsewhere-not_excluded :
        (excluded ≡ 0)
          ⊎ ((x : Account) × (find_account excluded db.accounts ≡ some x)
              × (a.username ≢ x.username))
        → not_excluded excluded db.accounts a ≡ true
    unfolding not_excluded
    elsewhere-not_excluded (inl e) = ground (arith, e)
    elsewhere-not_excluded (inr (x, n, q)) =
        let other : (a.username == x.username) ≡ false = ground (arith, q) in
        rw (n, other) (ground arith)

    pub eligible-Fits : eligible now excluded card_id db a ≡ true → Fits now excluded card_id db a
    unfolding eligible allocatable
    eligible-Fits h = record {
      unexpired = ground (arith, h);
      unarchived = is_none_eq a.archived_at (ground (arith, h));
      available = available_status a.status (ground (arith, h));
      room = ground (arith, h);
      unbanned = λ e. absurd (ground (arith, h, ap is_dead_banned e));
      elsewhere = not_excluded-elsewhere (ground (arith, h));
      apart = λ l c r. absurd (ground (arith, h, Rival-conflict l c r));
    }

    no_conflict : Fits now excluded card_id db a → group_conflict now card_id db a ≡ false
    no_conflict f = elim (Bool-cases (group_conflict now card_id db a)) [
      | inr e ↦ e
      | inl e ↦ (let (l, c, r) = conflict-Rival e in absurd (f.apart l c r))
    ]

    not_banned :
        a.monitor_status ≢ MonitorStatus.dead_banned → is_dead_banned a.monitor_status ≡ false
    not_banned h = elim (Bool-cases (is_dead_banned a.monitor_status)) [
      | inr e ↦ e
      | inl e ↦ absurd (h (banned_status a.monitor_status e))
    ]

    pub Fits-eligible : Fits now excluded card_id db a → eligible now excluded card_id db a ≡ true
    unfolding eligible allocatable
    Fits-eligible f =
        let late : after now a.account_expiry ≡ true = ground (arith, f.unexpired) in
        let room : ltb a.current_allocations a.max_concurrent_users ≡ true =
          ground (arith, f.room) in
        rw
          (
            late,
            f.unarchived,
            f.available,
            room,
            not_banned f.unbanned,
            elsewhere-not_excluded f.elsewhere,
            no_conflict f,
          )
          refl
