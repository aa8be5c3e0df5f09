-- ===== src/Pool/Books/Redeem.antt =====
-- The ledger under redeemCard of repository.go.
use gptshare.Base.{
  ℕ, ◌<◌, ◌≡◌, refl, sym, Bool, true, false, ◌==◌, count_where, exists_where, find_where,
  update_where, Option, none, some, arith,
}
use gptshare.Pool.Types.{
  Account, Card, Allocation, Binding, Db, ok, no_rows, card_state_conflict, no_account_capacity,
  guard, or_fail, >>=-eq-ok, or_fail-eq-ok, guard-eq-ok, ok-injective,
}
use gptshare.Pool.Tables.{is_unused}
use gptshare.Pool.Candidate.{select_card_candidate}
use gptshare.Pool.Seats.{
  card_time_after_days, update_one, insert_allocation, new_allocation, active_primary,
}
use gptshare.Pool.Redeem.{
  consume_bind_nonce, insert_event, backfill_card_code, can_redeem, unused_card, redeemed_row,
  mark_redeemed, give_seat, redeem_card,
}
use gptshare.Pool.Books.Defs.{IsSound, nothing, Books-same}
use gptshare.Pool.Books.Seats.{taken, taken-Books}

-- The steps of a successful redemption.
pub record Redeemed (now : ℕ) (has_keyring monitor_available : Bool) (code_hash : ℕ)
    (binding : Option Binding) (db : Db) (r : Db × Allocation) : Type 0 where
  pub card : Card
  pub account : Account
  pub bound : Db
  pub expires : ℕ
  pub seated : Db × ℕ
  pub found : find_where (λ c. c.code_hash == code_hash) db.cards ≡ some card
  pub unused : is_unused card.status ≡ true
  pub consumed : consume_bind_nonce binding db ≡ ok bound
  pub timed : card_time_after_days now card.duration_days ≡ ok expires
  pub chosen :
      select_card_candidate now expires monitor_available 0 card.id false bound ≡ some account
  pub given : give_seat now card account expires bound ≡ ok seated
  pub result : r ≡ (
    backfill_card_code has_keyring binding card.id (insert_event binding card.id false seated.0),
    new_allocation seated.1 card.id account.id now expires,
  )

pub redeem-Redeemed :
    (now : ℕ) (has_keyring monitor_available : Bool) (code_hash : ℕ) (binding : Option Binding)
    (db : Db) {r : Db × Allocation}
    → redeem_card now has_keyring monitor_available code_hash binding db ≡ ok r
    → Redeemed now has_keyring monitor_available code_hash binding db r
unfolding redeem_card
redeem-Redeemed now kr ma hash binding db h =
    let (card, found, h1) =
      >>=-eq-ok (or_fail (find_where (λ c. c.code_hash == hash) db.cards) no_rows) _ h in
    let (u, unused, h2) = >>=-eq-ok (guard (is_unused card.status) card_state_conflict) _ h1 in
    let (bound, consumed, h3) = >>=-eq-ok (consume_bind_nonce binding db) _ h2 in
    let (expires, timed, h4) = >>=-eq-ok (card_time_after_days now card.duration_days) _ h3 in
    let (account, chosen, h5) =
      >>=-eq-ok
        (or_fail (select_card_candidate now expires ma 0 card.id false bound) no_account_capacity) _
        h4 in
    let (seated, given, h6) = >>=-eq-ok (give_seat now card account expires bound) _ h5 in
    record {
      card = card;
      account = account;
      bound = bound;
      expires = expires;
      seated = seated;
      found = or_fail-eq-ok _ no_rows found;
      unused = guard-eq-ok _ card_state_conflict unused;
      consumed = consumed;
      timed = timed;
      chosen = or_fail-eq-ok _ no_account_capacity chosen;
      given = given;
      result = sym (ok-injective h6);
    }

-- A seat that is given: one account with room, one unused card, and a new primary allocation.
abbrev pub seat_given : ℕ → Card → Account → ℕ → Db → Db
seat_given now card account expires db =
    record (taken (can_redeem account.id now) card.id account.id now expires db) {
      cards = update_where (unused_card card.id) (redeemed_row now expires) db.cards;
    }

pub give_seat-eq :
    (now : ℕ) (card : Card) (account : Account) (expires : ℕ) (db : Db) {r : Db × ℕ}
    → give_seat now card account expires db ≡ ok r
    → (count_where (can_redeem account.id now) db.accounts ≡ 1)
      × (exists_where (active_primary card.id) db.allocations ≡ false)
      × (count_where (unused_card card.id) db.cards ≡ 1)
      × (r ≡ (seat_given now card account expires db, db.next_allocation))
unfolding give_seat update_one insert_allocation mark_redeemed
give_seat-eq now card account expires db h = ground arith

pub consume-rows :
    (binding : Option Binding) (db : Db) {bound : Db}
    → consume_bind_nonce binding db ≡ ok bound
    → (bound.accounts ≡ db.accounts)
      × (bound.allocations ≡ db.allocations)
      × (bound.next_allocation ≡ db.next_allocation)
      × (bound.cards ≡ db.cards)
unfolding consume_bind_nonce
consume-rows none db h = ground arith
consume-rows (some b) db h = ground arith

pub backfill-rows :
    (has_keyring claimed : Bool) (binding : Option Binding) (card_id : ℕ) (db : Db)
    → let final =
        backfill_card_code has_keyring binding card_id (insert_event binding card_id claimed db) in
      (final.accounts ≡ db.accounts)
      × (final.allocations ≡ db.allocations)
      × (final.next_allocation ≡ db.next_allocation)
unfolding backfill_card_code insert_event
backfill-rows kr cl none card_id db = (refl, refl, refl)
backfill-rows kr cl (some b) card_id db = ground arith

-- The seat statement updates the chosen account only, and only if it has room.
pub can_redeem-id : (k now : ℕ) (a : Account) → can_redeem k now a ≡ true → a.id ≡ k
can_redeem-id k now a h = ground arith

pub can_redeem-room :
    (k now : ℕ) (a : Account)
    → can_redeem k now a ≡ true
    → a.current_allocations < a.max_concurrent_users
can_redeem-room k now a h = ground arith

-- A redemption that succeeds on a sound database leaves a sound one.
pub redeem-IsSound :
    (now : ℕ) (has_keyring monitor_available : Bool) (code_hash : ℕ) (binding : Option Binding)
    (db : Db) {r : Db × Allocation}
    → IsSound db
    → redeem_card now has_keyring monitor_available code_hash binding db ≡ ok r
    → IsSound r.0
redeem-IsSound now kr ma hash binding db sound h =
    let d = redeem-Redeemed now kr ma hash binding db h in
    let (one, fresh, card_row, e) = give_seat-eq now d.card d.account d.expires d.bound d.given in
    let (ra, rl, rn, rc) = consume-rows binding db d.consumed in
    let (fa, fl, fn) = backfill-rows kr false binding d.card.id d.seated.0 in
    let bound = Books-same nothing db d.bound ra rl rn sound in
    let seated =
      taken-Books (can_redeem d.account.id now) d.account.id now (can_redeem-id d.account.id now)
        (can_redeem-room d.account.id now) nothing d.card.id d.expires d.bound one fresh bound in
    rw d.result (
      Books-same nothing d.seated.0 _ fa fl fn (
        rw e (
          Books-same nothing
            (taken (can_redeem d.account.id now) d.card.id d.account.id now d.expires d.bound) _
            refl refl refl seated)))
