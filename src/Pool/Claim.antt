-- ===== src/Pool/Claim.antt =====
-- A user who takes over a card that is running: claimCard of user_center.go.
pub mod Owner
use gptshare.Base.{
  ℕ, Bool, true, false, not, ◌&&◌, ◌||◌, Option, none, some, List, ltb, ◌==◌, if◌then◌else◌,
  exists_where, find_where,
}
use gptshare.Pool.Types.{
  Card, Binding, RedemptionEvent, Db, Result, ok, err, no_rows, ◌>>=◌, or_fail,
}
use gptshare.Pool.Tables.{is_redeemed}
use gptshare.Pool.Redeem.{consume_bind_nonce, insert_event, backfill_card_code}

pub data Claim : Type 0 where
  claimed already_bound not_claimable : Claim

-- expires.After(now), of a column that may be NULL.
abbrev pub runs : ℕ → Card → Bool
runs now c = elim c.expires_at [ none ↦ false | some t ↦ is_redeemed c.status && ltb now t ]

abbrev pub of_card : ℕ → RedemptionEvent → Bool
of_card card_id e = e.card_id == card_id

unfoldable pub take_over : Bool → Option Binding → ℕ → Db → Result (Db × Claim)
take_over has_keyring binding card_id db = consume_bind_nonce binding db >>= λ bound. ok (
  backfill_card_code has_keyring binding card_id (insert_event binding card_id true bound),
  Claim.claimed,
)

unfoldable pub claim_row : ℕ → Bool → Option Binding → Card → Db → Result (Db × Claim)
claim_row now has_keyring binding card db =
    if not (runs now card)
    then ok (db, Claim.not_claimable)
    else if exists_where (of_card card.id) db.events
    then ok (db, Claim.already_bound)
    else take_over has_keyring binding card.id db

unfoldable pub claim_card : ℕ → Bool → ℕ → Option Binding → Db → Result (Db × Claim)
claim_card now has_keyring code_hash binding db =
    or_fail (find_where (λ c. c.code_hash == code_hash) db.cards) no_rows >>= λ card.
    claim_row now has_keyring binding card db
