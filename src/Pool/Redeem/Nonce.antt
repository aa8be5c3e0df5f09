-- ===== src/Pool/Redeem/Nonce.antt =====
-- The nonces that redeemCard spends.
use gptshare.Base.{
  ℕ, ◌≡◌, ◌≢◌, refl, sym, ap, ◌∙◌, Bool, true, false, some, ◌==◌, exists_where, arith, Bool-cases,
  inl, inr,
}
use mathlib.Core.Bool.{false≢true}
use gptshare.Pool.Types.{Allocation, Binding, Db, ok}
use gptshare.Pool.Redeem.{
  consume_bind_nonce, insert_event, backfill_card_code, skips_archive, redeem_card,
}
use gptshare.Pool.Books.Redeem.{redeem-Redeemed, give_seat-eq}

abbrev pub is_spent : ℕ → Db → Bool
is_spent nonce db = exists_where (λ n. n.0 == nonce) db.nonces

consume-nonce :
    (b : Binding) (db : Db) {bound : Db}
    → consume_bind_nonce (some b) db ≡ ok bound
    → (is_spent b.nonce db ≡ false) × (is_spent b.nonce bound ≡ true)
unfolding consume_bind_nonce
consume-nonce b db h = ground arith

kept_nonces :
    (has_keyring : Bool) (b : Binding) (id : ℕ) (db : Db)
    → (backfill_card_code has_keyring (some b) id (insert_event (some b) id false db)).nonces
      ≡ db.nonces
unfolding backfill_card_code insert_event
kept_nonces kr b id db = elim (Bool-cases (skips_archive kr b)) [
  | inl e ↦ rw e refl
  | inr e ↦ rw e refl
]

-- A redemption with a binding needs a fresh nonce and spends it.
redeem-nonce :
    (now : ℕ) (has_keyring monitor_available : Bool) (code_hash : ℕ) (b : Binding) (db : Db)
    {r : Db × Allocation}
    → redeem_card now has_keyring monitor_available code_hash (some b) db ≡ ok r
    → (is_spent b.nonce db ≡ false) × (is_spent b.nonce r.0 ≡ true)
redeem-nonce now kr ma hash b db h =
    let d = redeem-Redeemed now kr ma hash (some b) db h in
    let (one, fresh, card_row, given) =
      give_seat-eq now d.card d.account d.expires d.bound d.given in
    let (before, after) = consume-nonce b db d.consumed in
    let same =
      ap (λ (x : Db × Allocation). x.0.nonces) d.result
      ∙ kept_nonces kr b d.card.id d.seated.0
      ∙ ap (λ (s : Db × ℕ). s.0.nonces) given in
    (before, rw same after)

-- After a redemption with a bind ticket no redemption with the same nonce succeeds on the resulting
-- database, whatever the code, the time and the user.
pub redeem_nonce_once :
    (now : ℕ) (has_keyring monitor_available : Bool) (code_hash : ℕ) (b : Binding) (db : Db)
    {r : Db × Allocation} (now' : ℕ) (has_keyring' monitor_available' : Bool) (code_hash' : ℕ)
    (b' : Binding) (r' : Db × Allocation)
    → redeem_card now has_keyring monitor_available code_hash (some b) db ≡ ok r
    → b'.nonce ≡ b.nonce
    → redeem_card now' has_keyring' monitor_available' code_hash' (some b') r.0 ≢ ok r'
redeem_nonce_once now kr ma hash b db {r} now' kr' ma' hash' b' r' h e h' =
    let (fresh, used) = redeem-nonce now kr ma hash b db h in
    let (fresh', used') = redeem-nonce now' kr' ma' hash' b' r.0 h' in
    false≢true (sym fresh' ∙ ap (λ n. is_spent n r.0) e ∙ used)
