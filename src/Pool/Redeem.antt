-- ===== src/Pool/Redeem.antt =====
-- Redemption of a card: redeemCard of repository.go, with consumeBindNonce, insertEvent and
-- backfillCardCode of user_center.go.
pub mod Once
pub mod Nonce
pub mod Code
use gptshare.Base.{
  ℕ, suc, ◌+◌, Bool, true, false, not, ◌&&◌, ◌||◌, Option, none, some, List, [], ◌∷◌, leb, ltb,
  ◌==◌, if◌then◌else◌, update_where, count_where, exists_where, find_where, is_none,
}
use gptshare.Pool.Types.{
  Account, Card, CardStatus, Allocation, Binding, RedemptionEvent, Db, Result, ok, err, no_rows,
  card_state_conflict, no_account_capacity, bind_nonce_reused, binding_incomplete, ◌>>=◌, ◌>>◌,
  guard, or_fail,
}
use gptshare.Pool.Tables.{is_unused, is_redeemed, after, take_seat}
use gptshare.Pool.Candidate.{select_card_candidate}
use gptshare.Pool.Seats.{card_time_after_days, update_one, insert_allocation, new_allocation}

-- INSERT INTO used_bind_nonces ... ON CONFLICT(nonce) DO NOTHING, which has to insert.
unfoldable pub consume_bind_nonce : Option Binding → Db → Result Db
consume_bind_nonce none db = ok db
consume_bind_nonce (some b) db =
    if b.user_uid == 0 || b.nonce == 0 || b.code_hash_hex == 0
    then err binding_incomplete
    else if exists_where (λ n. n.0 == b.nonce) db.nonces
    then err bind_nonce_reused
    else ok (record db { nonces = (b.nonce, b.nonce_exp) ∷ db.nonces })

unfoldable pub insert_event : Option Binding → ℕ → Bool → Db → Db
insert_event none card_id claimed db = db
insert_event (some b) card_id claimed db = record db {
  events = record { card_id = card_id; user_uid = b.user_uid; claimed = claimed } ∷ db.events;
}

abbrev pub unarchived : ℕ → Card → Bool
unarchived card_id c = c.id == card_id && not c.code_archived

abbrev pub archive_code : Card → Card
archive_code c = record c { code_archived = true }

abbrev pub skips_archive : Bool → Binding → Bool
skips_archive has_keyring b = b.code_plaintext == 0 || not has_keyring

unfoldable pub backfill_card_code : Bool → Option Binding → ℕ → Db → Db
backfill_card_code has_keyring none card_id db = db
backfill_card_code has_keyring (some b) card_id db =
    if skips_archive has_keyring b
    then db
    else record db { cards = update_where (unarchived card_id) archive_code db.cards }

-- The seat statement of redeemCard, which does not test archived_at again.
abbrev pub can_redeem : ℕ → ℕ → Account → Bool
can_redeem account_id now a =
    a.id == account_id
    && ltb a.current_allocations a.max_concurrent_users
    && after now a.account_expiry

abbrev pub unused_card : ℕ → Card → Bool
unused_card card_id c = c.id == card_id && is_unused c.status

abbrev pub redeemed_row : ℕ → ℕ → Card → Card
redeemed_row now expires c = record c {
  status = CardStatus.redeemed;
  redeemed_at = some now;
  expires_at = some expires;
}

-- The update of the card, which has to change one row.
unfoldable pub mark_redeemed : ℕ → ℕ → ℕ → Db → Result Db
mark_redeemed card_id now expires db =
    if count_where (unused_card card_id) db.cards == 1
    then ok (record db {
      cards = update_where (unused_card card_id) (redeemed_row now expires) db.cards;
    })
    else err card_state_conflict

-- The part of the transaction after the candidate has been chosen.
unfoldable pub give_seat : ℕ → Card → Account → ℕ → Db → Result (Db × ℕ)
give_seat now card account expires db = do
  seated ← update_one (can_redeem account.id now) now db
  inserted ← insert_allocation card.id account.id now expires seated
  marked ← mark_redeemed card.id now expires inserted.0
  ok (marked, inserted.1)

unfoldable pub redeem_card : ℕ → Bool → Bool → ℕ → Option Binding → Db → Result (Db × Allocation)
redeem_card now has_keyring monitor_available code_hash binding db = do
  card ← or_fail (find_where (λ c. c.code_hash == code_hash) db.cards) no_rows
  guard (is_unused card.status) card_state_conflict
  bound ← consume_bind_nonce binding db
  expires ← card_time_after_days now card.duration_days
  account ←
      or_fail (select_card_candidate now expires monitor_available 0 card.id false bound)
        no_account_capacity
  seated ← give_seat now card account expires bound
  ok (
    backfill_card_code has_keyring binding card.id (insert_event binding card.id false seated.0),
    new_allocation seated.1 card.id account.id now expires,
  )
