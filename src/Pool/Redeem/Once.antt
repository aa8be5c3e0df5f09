-- ===== src/Pool/Redeem/Once.antt =====
-- The card and its row after redeemCard.
use mathlib.Core.List.{Memᴰ}
use gptshare.Base.{
  ℕ, ◌+◌, ◌*◌, ◌≡◌, refl, sym, ap, ◌∙◌, Bool, true, false, Option, none, some, List, ◌∷◌, ◌==◌,
  if◌then◌else◌, find_where, update_where, patch, find_where-update, subst, arith, Bool-cases, inl,
  inr,
}
use gptshare.Time.{day}
use gptshare.Pool.Types.{
  Account, Card, CardStatus, Allocation, Binding, Db, ok, err, card_state_conflict,
}
use gptshare.Pool.Tables.{is_unused, allocatable}
use gptshare.Pool.Candidate.{eligible}
use gptshare.Pool.Candidate.Choice.{select-least}
use gptshare.Pool.Seats.{card_time_after_days, new_allocation}
use gptshare.Pool.Redeem.{
  insert_event, backfill_card_code, unarchived, archive_code, skips_archive, unused_card,
  redeemed_row, redeem_card,
}
use gptshare.Pool.Books.Redeem.{redeem-Redeemed, give_seat-eq, consume-rows, backfill-rows}

abbrev pub by_hash : ℕ → Card → Bool
by_hash hash c = c.code_hash == hash

marked :
    (hash now expires : ℕ) (card : Card) (cards : List Card)
    → find_where (by_hash hash) cards ≡ some card
    → is_unused card.status ≡ true
    → find_where
        (by_hash hash)
        (update_where (unused_card card.id) (redeemed_row now expires) cards)
      ≡ some (redeemed_row now expires card)
marked hash now expires card cards h u =
    find_where-update (unused_card card.id) (by_hash hash) (redeemed_row now expires) (λ c. refl)
      cards
    ∙ ap (patch (unused_card card.id) (redeemed_row now expires)) h
    ∙ ground arith

-- The statements after the card's own update change no more of it than code_archived.
archived_later :
    (has_keyring claimed : Bool) (binding : Option Binding) (hash : ℕ) (card : Card) (id : ℕ)
    (db : Db)
    → find_where (by_hash hash) db.cards ≡ some card
    → (c : Card) × (find_where
          (by_hash hash)
          (backfill_card_code has_keyring binding id (insert_event binding id claimed db)).cards
        ≡ some c)
      × (c.status ≡ card.status)
      × (c.expires_at ≡ card.expires_at)
      × (c.id ≡ card.id)
unfolding backfill_card_code insert_event
archived_later kr claimed none hash card id db h = (card, h, refl, refl, refl)
archived_later kr claimed (some b) hash card id db h = elim (Bool-cases (skips_archive kr b)) [
  | inl e ↦ (card, rw e h, refl, refl, refl)
  | inr e ↦ (
    if unarchived id card then archive_code card else card,
    rw e (
        find_where-update (unarchived id) (by_hash hash) archive_code (λ c. refl) db.cards
        ∙ ap (patch (unarchived id) archive_code) h),
    ground arith,
    ground arith,
    ground arith,
  )
]

-- The card is redeemed until the time that the allocation is valid to, its days after the redemption;
-- the account was allocatable, and the allocation is the newest row.
pub record Outcome (now code_hash : ℕ) (db : Db) (r : Db × Allocation) : Type 0 where
  pub card : Card
  pub account : Account
  pub later : Card
  pub found : find_where (by_hash code_hash) db.cards ≡ some card
  pub unused : is_unused card.status ≡ true
  pub row : Memᴰ account db.accounts
  pub fit : allocatable now account ≡ true
  pub same_card : later.id ≡ card.id
  pub found_later : find_where (by_hash code_hash) r.0.cards ≡ some later
  pub redeemed : later.status ≡ CardStatus.redeemed
  pub expires : later.expires_at ≡ some (now + card.duration_days * day)
  pub newest : r.0.allocations ≡ r.1 ∷ db.allocations
  pub of_card : r.1.card_id ≡ card.id
  pub of_account : r.1.account_id ≡ account.id
  pub valid : r.1.valid_until ≡ now + card.duration_days * day

card_time-eq :
    (base days : ℕ) {t : ℕ} → card_time_after_days base days ≡ ok t → t ≡ base + days * day
unfolding card_time_after_days
card_time-eq base days h = ground arith

eligible-allocatable :
    (now excluded card_id : ℕ) (db : Db) (a : Account)
    → eligible now excluded card_id db a ≡ true
    → allocatable now a ≡ true
unfolding eligible
eligible-allocatable now excluded card_id db a h = ground arith

cons-eq : {x y : Allocation} {xs ys : List Allocation} → x ≡ y → xs ≡ ys → x ∷ xs ≡ y ∷ ys
cons-eq p q = λ i. p i ∷ q i

module _ (now : ℕ) (has_keyring monitor_available : Bool) (code_hash : ℕ) (binding : Option Binding)
    (db : Db) {r : Db × Allocation} where
  -- A redemption that succeeds has an outcome: the code was that of an unused card, which is
  -- redeemed now until the card's days after the redemption; the account was a row of the table
  -- that is allocatable; and the allocation that is returned is the newest row, joins the two and
  -- is valid as long as the card.
  pub redeem-Outcome :
      redeem_card now has_keyring monitor_available code_hash binding db ≡ ok r
      → Outcome now code_hash db r
  redeem-Outcome h =
      let d = redeem-Redeemed now has_keyring monitor_available code_hash binding db h in
      let (one, fresh, card_row, given) =
        give_seat-eq now d.card d.account d.expires d.bound d.given in
      let (ra, rl, rn, rc) = consume-rows binding db d.consumed in
      let (fa, fl, fn) = backfill-rows has_keyring false binding d.card.id d.seated.0 in
      let (row, fit, least) =
        select-least now d.expires monitor_available 0 d.card.id false d.bound d.account d.chosen in
      let at : d.expires ≡ now + d.card.duration_days * day =
        card_time-eq now d.card.duration_days d.timed in
      let mark : find_where (by_hash code_hash) d.seated.0.cards
          ≡ some (redeemed_row now d.expires d.card) =
        rw given (marked code_hash now d.expires d.card d.bound.cards (rw rc d.found) d.unused) in
      let (later, found_later, status, expires, id) =
        archived_later has_keyring false binding code_hash (redeemed_row now d.expires d.card)
          d.card.id d.seated.0 mark in
      let row_eq =
        ap (λ (x : Db × Allocation). x.1) d.result
        ∙ ap (λ (s : Db × ℕ). new_allocation s.1 d.card.id d.account.id now d.expires) given in
      record {
        card = d.card;
        account = d.account;
        later = later;
        found = d.found;
        unused = d.unused;
        row = subst (Memᴰ d.account) ra row;
        fit = eligible-allocatable now 0 d.card.id d.bound d.account fit;
        same_card = id;
        found_later = rw d.result found_later;
        redeemed = status;
        expires = expires ∙ ap some at;
        newest =
            ap (λ (x : Db × Allocation). x.0.allocations) d.result
            ∙ fl
            ∙ ap (λ (s : Db × ℕ). s.0.allocations) given
            ∙ cons-eq (sym row_eq) rl;
        of_card = rw d.result refl;
        of_account = rw d.result refl;
        valid = rw d.result at;
      }

-- After a redemption the transaction on the same code is refused as a conflict of the card's state on
-- the resulting database, at any time and with any binding: RedeemCodeWithBinding then looks for the
-- seat that was given.
pub redeem_once :
    (now : ℕ) (has_keyring monitor_available : Bool) (code_hash : ℕ) (binding : Option Binding)
    (db : Db) {r : Db × Allocation} (now' : ℕ) (has_keyring' monitor_available' : Bool)
    (binding' : Option Binding)
    → redeem_card now has_keyring monitor_available code_hash binding db ≡ ok r
    → redeem_card now' has_keyring' monitor_available' code_hash binding' r.0
      ≡ err card_state_conflict
unfolding redeem_card
redeem_once now kr ma hash binding db now' kr' ma' binding' h =
    let o = redeem-Outcome now kr ma hash binding db h in rw o.found_later (rw o.redeemed refl)
