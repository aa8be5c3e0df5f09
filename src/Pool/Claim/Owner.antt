-- ===== src/Pool/Claim/Owner.antt =====
-- The owners that redeemCard and claimCard record for a card.
use gptshare.Base.{
  ℕ, ◌+◌, ◌≤◌, ◌≡◌, refl, ap, subst, Bool, true, false, Option, none, some, List, [], ◌∷◌, ◌==◌,
  count_where, count_where-update-le, exists_where, find_where, update_where, arith, Bool-cases,
  inl, inr,
}
use mathlib.Core.Option.{some-injective}
use gptshare.Pool.Types.{
  Card, Allocation, Binding, RedemptionEvent, Db, ok, no_rows, or_fail, >>=-eq-ok, or_fail-eq-ok,
  ok-injective,
}
use gptshare.Pool.Tables.{is_unused}
use gptshare.Pool.Redeem.{
  consume_bind_nonce, insert_event, backfill_card_code, unarchived, archive_code, skips_archive,
  unused_card, redeemed_row, redeem_card,
}
use gptshare.Pool.Books.Redeem.{redeem-Redeemed, give_seat-eq, seat_given}
use gptshare.Pool.Claim.{Claim, runs, of_card, take_over, claim_row, claim_card}

abbrev owners : ℕ → List RedemptionEvent → ℕ
owners card_id = count_where (of_card card_id)

abbrev of_id : ℕ → Card → Bool
of_id card_id c = c.id == card_id

-- A card has one owner at most, and none while it is unused; card ids are a key.
pub record OneOwner (db : Db) : Type 0 where
  pub keys : (card_id : ℕ) → count_where (of_id card_id) db.cards ≤ 1
  pub one :
      (card_id : ℕ) → count_where (unused_card card_id) db.cards + owners card_id db.events ≤ 1

no_owner :
    (card_id : ℕ) (events : List RedemptionEvent)
    → exists_where (of_card card_id) events ≡ false
    → owners card_id events ≡ 0
no_owner card_id [] h = refl
no_owner card_id (e ∷ es) h = ground (arith, no_owner card_id es)

found_counted :
    (card_id : ℕ) (cards : List Card) (p : Card → Bool) (c : Card)
    → find_where p cards ≡ some c
    → c.id ≡ card_id
    → 1 ≤ count_where (of_id card_id) cards
found_counted card_id [] p c h i = cc
found_counted card_id (x ∷ xs) p c h i = elim (Bool-cases (p x)) [
  | inl e ↦
      (let same = ap (λ (y : Card). y.id) (some-injective x c (rw e at h)) in
        ground (arith, same, i))
  | inr e ↦ ground (arith, found_counted card_id xs p c (rw e at h) i)
]

taken_card :
    (card_id : ℕ) (cards : List Card) (p : Card → Bool) (c : Card)
    → count_where (of_id card_id) cards ≤ 1
    → find_where p cards ≡ some c
    → c.id ≡ card_id
    → is_unused c.status ≡ false
    → count_where (unused_card card_id) cards ≡ 0
taken_card card_id [] p c k h i u = cc
taken_card card_id (x ∷ xs) p c k h i u = elim (Bool-cases (p x)) [
  | inl e ↦
      (let same = some-injective x c (rw e at h) in
        ground (
          arith,
          same,
          none_left card_id xs,
          ap (λ (y : Card). y.id) same,
          ap (λ (y : Card). is_unused y.status) same,
        ))
  | inr e ↦
      (let rest = taken_card card_id xs p c (ground (arith, k)) (rw e at h) i u in
        ground (arith, k, rest, found_counted card_id xs p c (rw e at h) i))
]
  where
    none_left :
        (card_id : ℕ) (cards : List Card)
        → count_where (unused_card card_id) cards ≤ count_where (of_id card_id) cards
    none_left card_id [] = omega arith
    none_left card_id (x ∷ xs) = ground (arith, none_left card_id xs)

marked_none :
    (card_id now expires : ℕ) (cards : List Card)
    → count_where
        (unused_card card_id)
        (update_where (unused_card card_id) (redeemed_row now expires) cards)
      ≡ 0
marked_none card_id now expires [] = refl
marked_none card_id now expires (c ∷ cs) = ground (arith, marked_none card_id now expires cs)

-- Archiving a code changes no status.
backfill-OneOwner :
    (has_keyring : Bool) (binding : Option Binding) (card_id : ℕ) (db : Db)
    → OneOwner db
    → OneOwner (backfill_card_code has_keyring binding card_id db)
unfolding backfill_card_code
backfill-OneOwner kr none card_id db o = o
backfill-OneOwner kr (some b) card_id db o = elim (Bool-cases (skips_archive kr b)) [
  | inl e ↦ rw e o
  | inr e ↦ rw e (record {
    keys = λ k. omega (
      arith,
      o.keys k,
      count_where-update-le (unarchived card_id) archive_code (of_id k) (λ c i h. h) db.cards,
    );
    one = λ k. omega (
      arith,
      o.one k,
      count_where-update-le (unarchived card_id) archive_code (unused_card k) (λ c i h. h) db.cards,
    );
  })
]

-- A card without an owner, which is not unused, gets one.
insert-OneOwner :
    (binding : Option Binding) (card_id : ℕ) (flag : Bool) (db : Db)
    → count_where (unused_card card_id) db.cards ≡ 0
    → owners card_id db.events ≡ 0
    → OneOwner db
    → OneOwner (insert_event binding card_id flag db)
unfolding insert_event
insert-OneOwner none card_id flag db used first o = o
insert-OneOwner (some b) card_id flag db used first o = record {
  keys = o.keys;
  one = λ c. ground (arith, o.one c, first, used);
}

consume-same :
    (binding : Option Binding) (db : Db) {bound : Db}
    → consume_bind_nonce binding db ≡ ok bound
    → (bound.cards ≡ db.cards) × (bound.events ≡ db.events)
unfolding consume_bind_nonce
consume-same none db h = ground arith
consume-same (some b) db h = ground arith

OneOwner-same :
    (db db' : Db) → db'.cards ≡ db.cards → db'.events ≡ db.events → OneOwner db → OneOwner db'
OneOwner-same db db' ec ee o = record { keys = rw ec o.keys; one = rw (ec, ee) o.one }

redeemed-not_unused : (now : ℕ) (c : Card) → runs now c ≡ true → is_unused c.status ≡ false
redeemed-not_unused now c h = ground (arith, h)

take_over-OneOwner :
    (has_keyring : Bool) (binding : Option Binding) (card_id : ℕ) (db : Db) {r : Db × Claim}
    → count_where (unused_card card_id) db.cards ≡ 0
    → owners card_id db.events ≡ 0
    → OneOwner db
    → take_over has_keyring binding card_id db ≡ ok r
    → OneOwner r.0
unfolding take_over
take_over-OneOwner kr binding card_id db used first o h =
    let (bound, spent, h1) = >>=-eq-ok (consume_bind_nonce binding db) _ h in
    let (ec, ee) = consume-same binding db spent in
    subst (λ (q : Db × Claim). OneOwner q.0) (ok-injective h1)
      (backfill-OneOwner kr binding card_id (insert_event binding card_id true bound) (
        insert-OneOwner binding card_id true bound (rw ec used) (rw ee first)
          (OneOwner-same db bound ec ee o)))

-- If no card has two owners and none that is unused has one, then that is so after a claim that is
-- answered, whichever way.
pub claim-OneOwner :
    (now : ℕ) (has_keyring : Bool) (code_hash : ℕ) (binding : Option Binding) (db : Db)
    {r : Db × Claim}
    → OneOwner db
    → claim_card now has_keyring code_hash binding db ≡ ok r
    → OneOwner r.0
unfolding claim_card claim_row
claim-OneOwner now kr hash binding db {r} o h =
    let (card, found, h1) =
      >>=-eq-ok (or_fail (find_where (λ c. c.code_hash == hash) db.cards) no_rows) _ h in
    let row = or_fail-eq-ok _ no_rows found in
    elim (Bool-cases (runs now card)) [
      | inr e ↦ subst (λ (q : Db × Claim). OneOwner q.0) (ok-injective (rw e at h1)) o
      | inl e ↦ elim (Bool-cases (exists_where (of_card card.id) db.events)) [
        | inl b ↦ subst (λ (q : Db × Claim). OneOwner q.0) (ok-injective (rw (e, b) at h1)) o
        | inr b ↦
            take_over-OneOwner kr binding card.id db
              (taken_card card.id db.cards (λ c. c.code_hash == hash) card (o.keys card.id) row refl
                (redeemed-not_unused now card e))
              (no_owner card.id db.events b) o (rw (e, b) at h1)
      ]
    ]

-- If no card has two owners and none that is unused has one, then that is so after a redemption.
pub redeem-OneOwner :
    (now : ℕ) (has_keyring monitor_available : Bool) (code_hash : ℕ) (binding : Option Binding)
    (db : Db) {r : Db × Allocation}
    → OneOwner db
    → redeem_card now has_keyring monitor_available code_hash binding db ≡ ok r
    → OneOwner r.0
redeem-OneOwner now kr ma hash binding db o h =
    let d = redeem-Redeemed now kr ma hash binding db h in
    let (ec, ee) = consume-same binding db d.consumed in
    let (one, fresh, card_row, e) = give_seat-eq now d.card d.account d.expires d.bound d.given in
    let before = OneOwner-same db d.bound ec ee o in
    let none_unused = marked_none d.card.id now d.expires d.bound.cards in
    rw d.result (
      backfill-OneOwner kr binding d.card.id (insert_event binding d.card.id false d.seated.0) (
        rw e (
          insert-OneOwner binding d.card.id false
            (seat_given now d.card d.account d.expires d.bound) none_unused
            (omega (arith, before.one d.card.id, card_row))
            (record {
              keys = λ k. omega (
                arith,
                before.keys k,
                count_where-update-le (unused_card d.card.id) (redeemed_row now d.expires) (of_id k)
                    (λ c i q. q) d.bound.cards,
              );
              one = λ k. omega (
                arith,
                before.one k,
                count_where-update-le (unused_card d.card.id) (redeemed_row now d.expires)
                    (unused_card k) (λ c i q. absurd (ground (arith, q))) d.bound.cards,
              );
            }))))
