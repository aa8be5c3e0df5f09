-- ===== src/Pool/Extend/Keys.antt =====
-- The codes of the cards under extendCardWithTx and what it calls: which card a code finds.
use gptshare.Base.{
  arith, ℕ, ◌+◌, ◌≡◌, refl, sym, ap, subst, ◌∙◌, Bool, not, ◌&&◌, Option, none, some, List, ltb,
  ◌==◌, update_where, count_where, find_where, find_where-update, patch, Bool-cases, inl, inr,
  where_rows,
}
use gptshare.Pool.Types.{
  Account, Allocation, Card, Replacement, Db, Result, ok, err, no_rows, card_state_conflict,
  no_account_capacity, or_fail, guard, >>=-eq-ok, ok-injective,
}
use gptshare.Pool.Tables.{is_unused, is_redeemed, can_reserve, group_by_account}
use gptshare.Pool.Candidate.{find_card}
use gptshare.Pool.Seats.{
  card_time_after_days, reserve_account_capacity, insert_allocation, update_one,
}
use gptshare.Pool.Sweep.{
  settle, expire_row, is_empty, card_grace, close_grace_allocations,
  supersede_card_grace_allocations,
}
use gptshare.Pool.Replace.{
  Due, close_old, keep_grace, release_old, end_old, replacement_keeps_grace, replace_one_allocation,
}
use gptshare.Pool.Extend.{
  Mode, with_mode, is_closed, update_card, seat_card, usable, renew_seat, current_seat,
  ensure_renewed_account, extend_unused, prolong, extend_active, card_seats, reactivate,
  extend_redeemed, extend_card_with_tx,
}
use gptshare.Pool.Books.Seats.{take, take-eq}
use gptshare.Pool.Books.Move.{replace_one-Completed}

abbrev pub by_hash : ℕ → List Card → Option Card
by_hash hash = find_where (λ c. c.code_hash == hash)

abbrev id_of : Option Card → Option ℕ
id_of none = none
id_of (some c) = some c.id

-- A code finds the same card, whatever else of it changed.
abbrev pub Keys : List Card → List Card → Type 0
Keys old new = (hash : ℕ) → id_of (by_hash hash new) ≡ id_of (by_hash hash old)

id_of-patch :
    (p : Card → Bool) (f : Card → Card)
    → ((c : Card) → (f c).id ≡ c.id)
    → (o : Option Card) → id_of (patch p f o) ≡ id_of o
id_of-patch p f same none = refl
id_of-patch p f same (some c) = elim (Bool-cases (p c)) [
  | inl e ↦ rw (e, same c) refl
  | inr e ↦ rw e refl
]

pub update-Keys :
    (p : Card → Bool) (f : Card → Card) (cards : List Card)
    → ((c : Card) → (f c).id ≡ c.id)
    → ((c : Card) → (f c).code_hash ≡ c.code_hash)
    → Keys cards (update_where p f cards)
update-Keys p f cards same_id same_hash hash =
    ap id_of (find_where-update p (λ c. c.code_hash == hash) f (λ c. rw (same_hash c) refl) cards)
    ∙ id_of-patch p f same_id (by_hash hash cards)

pub update_card-Keys :
    (p : Card → Bool) (f : Card → Card) (db : Db) {after : Db}
    → ((c : Card) → (f c).id ≡ c.id)
    → ((c : Card) → (f c).code_hash ≡ c.code_hash)
    → update_card p f db ≡ ok after
    → Keys db.cards after.cards
unfolding update_card
update_card-Keys p f db {after} same_id same_hash h =
    elim (Bool-cases (count_where p db.cards == 1)) [
      | inl e ↦
          subst (λ (q : Db). Keys db.cards q.cards) (ok-injective (rw e at h))
            (update-Keys p f db.cards same_id same_hash)
      | inr e ↦
          (let no_row : ◌≡◌ {A = Result Db} (err card_state_conflict) (ok after) = rw e at h in cc)
    ]

pub seat_card-cards :
    (card_id now expires : ℕ) (candidate : Option Account) (db : Db) {after : Db}
    → seat_card card_id now expires candidate db ≡ ok after
    → after.cards ≡ db.cards
unfolding seat_card reserve_account_capacity
seat_card-cards card_id now expires candidate db h =
    let (next, found, h1) = >>=-eq-ok (or_fail candidate no_account_capacity) _ h in
    let (reserved, seat, h2) = >>=-eq-ok (update_one (can_reserve next.id now) now db) _ h1 in
    let (inserted, row, h3) =
      >>=-eq-ok (insert_allocation card_id next.id now expires reserved) _ h2 in
    let both : take (can_reserve next.id now) card_id next.id now expires db ≡ ok inserted =
      rw seat row in
    let (one, fresh, e) = take-eq (can_reserve next.id now) card_id next.id now expires db both in
    subst (λ (q : Db). q.cards ≡ db.cards) (ok-injective h3)
      (subst (λ (q : Db × ℕ). q.0.cards ≡ db.cards) (sym e) refl)

supersede-cards :
    (card_id now : ℕ) (db : Db) → (supersede_card_grace_allocations card_id now db).cards ≡ db.cards
unfolding supersede_card_grace_allocations close_grace_allocations settle
supersede-cards card_id now db =
    elim (Bool-cases
      (is_empty (group_by_account (where_rows (card_grace card_id db) db.allocations)))) [
        | inl e ↦ rw e refl
        | inr e ↦ rw e refl
      ]

end_old-cards :
    (now : ℕ) (item : Due) (new_id : ℕ) (db : Db) → (end_old now item new_id db).cards ≡ db.cards
unfolding end_old keep_grace release_old
end_old-cards now item new_id db = elim (Bool-cases (replacement_keeps_grace item.reason)) [
  | inl e ↦ rw e (supersede-cards item.card_id now db)
  | inr e ↦ rw e refl
]

replace_one-cards :
    (now : ℕ) (item : Due) (db : Db) {r : Db × Replacement}
    → replace_one_allocation now item db ≡ ok r
    → r.0.cards ≡ db.cards
unfolding close_old
replace_one-cards now item db h =
    let d = replace_one-Completed now item db h in
    subst (λ (q : Db × Replacement). q.0.cards ≡ db.cards) (sym d.result)
      (end_old-cards now item (close_old now item db).next_allocation _)

renew_seat-cards :
    (card_id expiry now : ℕ) (m : Bool) (seat : Option (Allocation × Account)) (db : Db)
    {after : Db}
    → renew_seat card_id expiry now m seat db ≡ ok after
    → after.cards ≡ db.cards
unfolding renew_seat
renew_seat-cards card_id expiry now m none db h = seat_card-cards card_id now expiry _ db h
renew_seat-cards card_id expiry now m (some (l, a)) db h = elim (Bool-cases (usable now a)) [
  | inl e ↦ subst (λ (q : Db). q.cards ≡ db.cards) (ok-injective (rw e at h)) refl
  | inr e ↦
      (let (r, moved, h1) = >>=-eq-ok (replace_one_allocation now _ db) _ (rw e at h) in
        subst (λ (q : Db). q.cards ≡ db.cards) (ok-injective h1) (replace_one-cards now _ db moved))
]

ensure_renewed-cards :
    (card_id expiry now : ℕ) (m : Bool) (db : Db) {after : Db}
    → ensure_renewed_account card_id expiry now m db ≡ ok after
    → after.cards ≡ db.cards
unfolding ensure_renewed_account
ensure_renewed-cards card_id expiry now m db =
    renew_seat-cards card_id expiry now m (current_seat card_id db) db

extend_active-Keys :
    (now : ℕ) (card : Card) (redeemed_at expires_at days : ℕ) (m : Bool) (db : Db) {after : Db}
    → extend_active now card redeemed_at expires_at days m db ≡ ok after
    → Keys db.cards after.cards
unfolding extend_active
extend_active-Keys now card redeemed_at expires_at days m db h =
    let (extended, e, h1) = >>=-eq-ok (card_time_after_days expires_at days) _ h in
    let (updated, e2, h2) = >>=-eq-ok (update_card _ _ db) _ h1 in
    let kept = update_card-Keys _ _ db (λ c. refl) (λ c. refl) e2 in
    rw (ensure_renewed-cards card.id extended now m (prolong card.id extended updated) h2) kept

reactivate-Keys :
    (now : ℕ) (card : Card) (days : ℕ) (m : Bool) (db : Db) {after : Db}
    → reactivate now card days m db ≡ ok after
    → Keys db.cards after.cards
unfolding reactivate settle
reactivate-Keys now card days m db h =
    let closed = settle (card_seats card.id) expire_row db in
    let (expires, e, h1) = >>=-eq-ok (card_time_after_days now days) _ h in
    let (seated, e2, h2) = >>=-eq-ok (seat_card card.id now expires _ closed) _ h1 in
    let kept = update_card-Keys _ _ seated (λ c. refl) (λ c. refl) h2 in
    rw (seat_card-cards card.id now expires _ closed e2) at kept

with_mode-Keys :
    (mode : Mode) (m : Result Db) (db : Db) {r : Db × Mode}
    → ((after : Db) → m ≡ ok after → Keys db.cards after.cards)
    → with_mode mode m ≡ ok r
    → Keys db.cards r.0.cards
with_mode-Keys mode m db k h =
    let (after, e, h1) = >>=-eq-ok m _ h in
    subst (λ (q : Db × Mode). Keys db.cards q.0.cards) (ok-injective h1) (k after e)

extend_redeemed-Keys :
    (now : ℕ) (card : Card) (days : ℕ) (m : Bool) (redeemed_at expires_at : Option ℕ) (db : Db)
    {r : Db × Mode}
    → extend_redeemed now card days m redeemed_at expires_at db ≡ ok r
    → Keys db.cards r.0.cards
unfolding extend_redeemed
extend_redeemed-Keys now card days m none expires_at db h = absurd (ground arith)
extend_redeemed-Keys now card days m (some at_) none db h = absurd (ground arith)
extend_redeemed-Keys now card days m (some at_) (some until) db h =
    elim (Bool-cases (ltb now until && is_redeemed card.status)) [
      | inl e ↦
          with_mode-Keys Mode.active _ db
            (λ s. extend_active-Keys now card at_ until days m db {after = s}) (rw e at h)
      | inr e ↦
          with_mode-Keys Mode.reactivated _ db (λ s. reactivate-Keys now card days m db {after = s})
            (rw e at h)
    ]

pub extend_tx-Keys :
    (now card_id days : ℕ) (m : Bool) (db : Db) {r : Db × Mode}
    → extend_card_with_tx now card_id days m db ≡ ok r
    → Keys db.cards r.0.cards
unfolding extend_card_with_tx extend_unused
extend_tx-Keys now card_id days m db h =
    let (card, f, h1) = >>=-eq-ok (or_fail (find_card card_id db.cards) no_rows) _ h in
    let (u, g, h2) = >>=-eq-ok (guard (not (is_closed card.status)) card_state_conflict) _ h1 in
    elim (Bool-cases (is_unused card.status)) [
      | inl n ↦
          with_mode-Keys Mode.unused (extend_unused now card days db) db
            (λ s w.
              let (t, e, w1) =
                >>=-eq-ok (card_time_after_days now (card.duration_days + days)) _ w in
              update_card-Keys _ _ db (λ c. refl) (λ c. refl) w1)
            (rw n at h2)
      | inr n ↦
          extend_redeemed-Keys now card days m card.redeemed_at card.expires_at db (rw n at h2)
    ]
