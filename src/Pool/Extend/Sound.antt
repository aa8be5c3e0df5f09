-- ===== src/Pool/Extend/Sound.antt =====
-- The ledger under extendCardWithTx and ExtendCardWithMonitor of repository.go.
use gptshare.Base.{
  ℕ, ◌+◌, ◌≡◌, refl, subst, Bool, not, ◌&&◌, ◌||◌, Option, none, some, ltb, arith, Bool-cases, inl,
  inr,
}
use gptshare.Pool.Types.{
  Card, Db, Result, ok, err, no_rows, card_state_conflict, card_duration_limit, or_fail, guard,
  >>=-eq-ok, ok-injective,
}
use gptshare.Pool.Tables.{is_unused, is_redeemed, occupies}
use gptshare.Pool.Candidate.{find_card}
use gptshare.Pool.Seats.{card_time_after_days}
use gptshare.Pool.Sweep.{settle, expire_row}
use gptshare.Pool.Extend.{
  Mode, with_mode, is_closed, update_card, seat_card, extend_unused, prolong, extend_active,
  card_seats, reactivate, extend_redeemed, extend_card_with_tx, extend_card,
}
use gptshare.Pool.Books.Defs.{IsSound, nothing}
use gptshare.Pool.Books.Settle.{settle-Books}
use gptshare.Pool.Books.Sweep.{expire_row-idle, and-right}
use gptshare.Pool.Extend.Keeps.{
  Keeps, update_card-Keeps, seat_card-Keeps, prolong-IsSound, ensure_renewed-Keeps,
}

with_mode-Keeps :
    (mode : Mode) (m : Result Db)
    → Keeps m
    → (r : Db × Mode) → with_mode mode m ≡ ok r
    → IsSound r.0
with_mode-Keeps mode m k r h =
    let (after, e, h1) = >>=-eq-ok m _ h in
    subst (λ (q : Db × Mode). IsSound q.0) (ok-injective h1) (k after e)

extend_unused-Keeps :
    (now : ℕ) (card : Card) (days : ℕ) (db : Db)
    → IsSound db
    → Keeps (extend_unused now card days db)
unfolding extend_unused
extend_unused-Keeps now card days db b after h =
    let (t, e, h1) = >>=-eq-ok (card_time_after_days now (card.duration_days + days)) _ h in
    update_card-Keeps _ _ db b after h1

extend_active-Keeps :
    (now : ℕ) (card : Card) (redeemed_at expires_at days : ℕ) (m : Bool) (db : Db)
    → IsSound db
    → Keeps (extend_active now card redeemed_at expires_at days m db)
unfolding extend_active
extend_active-Keeps now card redeemed_at expires_at days m db b after h =
    let (extended, e, h1) = >>=-eq-ok (card_time_after_days expires_at days) _ h in
    let (updated, e2, h2) = >>=-eq-ok (update_card _ _ db) _ h1 in
    ensure_renewed-Keeps card.id extended now m (prolong card.id extended updated)
      (prolong-IsSound card.id extended updated (update_card-Keeps _ _ db b updated e2)) after h2

reactivate-Keeps :
    (now : ℕ) (card : Card) (days : ℕ) (m : Bool) (db : Db)
    → IsSound db
    → Keeps (reactivate now card days m db)
unfolding reactivate
reactivate-Keeps now card days m db b after h =
    let closed = settle (card_seats card.id) expire_row db in
    let sound : IsSound closed =
      settle-Books (card_seats card.id) expire_row (λ d l e. and-right _ (occupies l) e)
        expire_row-idle (λ l. refl) nothing db refl b in
    let (expires, e, h1) = >>=-eq-ok (card_time_after_days now days) _ h in
    let (seated, e2, h2) = >>=-eq-ok (seat_card card.id now expires _ closed) _ h1 in
    update_card-Keeps _ _ seated (seat_card-Keeps card.id now expires _ closed sound seated e2)
      after h2

extend_redeemed-IsSound :
    (now : ℕ) (card : Card) (days : ℕ) (m : Bool) (redeemed_at expires_at : Option ℕ) (db : Db)
    → IsSound db
    → (r : Db × Mode) → extend_redeemed now card days m redeemed_at expires_at db ≡ ok r
    → IsSound r.0
unfolding extend_redeemed
extend_redeemed-IsSound now card days m none expires_at db b r h = absurd (ground arith)
extend_redeemed-IsSound now card days m (some at_) none db b r h = absurd (ground arith)
extend_redeemed-IsSound now card days m (some at_) (some until) db b r h =
    elim (Bool-cases (ltb now until && is_redeemed card.status)) [
      | inl e ↦
          with_mode-Keeps Mode.active (extend_active now card at_ until days m db)
            (extend_active-Keeps now card at_ until days m db b) r (rw e at h)
      | inr e ↦
          with_mode-Keeps Mode.reactivated (reactivate now card days m db)
            (reactivate-Keeps now card days m db b) r (rw e at h)
    ]

pub extend_tx-IsSound :
    (now card_id days : ℕ) (m : Bool) (db : Db) {r : Db × Mode}
    → IsSound db
    → extend_card_with_tx now card_id days m db ≡ ok r
    → IsSound r.0
unfolding extend_card_with_tx
extend_tx-IsSound now card_id days m db {r} b h =
    let (card, f, h1) = >>=-eq-ok (or_fail (find_card card_id db.cards) no_rows) _ h in
    let (u, g, h2) = >>=-eq-ok (guard (not (is_closed card.status)) card_state_conflict) _ h1 in
    elim (Bool-cases (is_unused card.status)) [
      | inl n ↦
          with_mode-Keeps Mode.unused (extend_unused now card days db)
            (extend_unused-Keeps now card days db b) r (rw n at h2)
      | inr n ↦
          extend_redeemed-IsSound now card days m card.redeemed_at card.expires_at db b r
            (rw n at h2)
    ]

-- An extension that succeeds, of an unused card, of a running one or of one that has run out, keeps the
-- database sound.
pub extend-IsSound :
    (now card_id days : ℕ) (monitor_available : Bool) (db : Db) {r : Db × Mode}
    → IsSound db
    → extend_card now card_id days monitor_available db ≡ ok r
    → IsSound r.0
unfolding extend_card
extend-IsSound now card_id days m db {r} b h = elim (Bool-cases (ltb days 1 || ltb 90 days)) [
  | inl e ↦
      (let refused : ◌≡◌ {A = Result (Db × Mode)} (err card_duration_limit) (ok r) = rw e at h in
        cc)
  | inr e ↦ extend_tx-IsSound now card_id days m db b (rw e at h)
]
