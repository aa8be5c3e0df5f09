-- ===== src/Pool/CardAction/Sound.antt =====
-- The ledger under applyCardAction, and what a preview says of the action itself.
use gptshare.Base.{
  ℕ, ◌≡◌, refl, sym, subst, Bool, true, false, not, ◌&&◌, Option, none, some, ◌==◌, Option-cases,
  inl, inr, is_some,
}
use gptshare.Pool.Types.{
  Card, CardStatus, Db, ok, no_rows, card_state_conflict, invalid_card_action, or_fail, guard,
  ◌>>=◌, >>=-eq-ok, guard-eq-ok, ok-injective,
}
use gptshare.Pool.Tables.{is_unused}
use gptshare.Pool.Candidate.{find_card}
use gptshare.Pool.Seats.{card_time_after_days}
use gptshare.Pool.Redeem.{unused_card, redeemed_row}
use gptshare.Pool.Extend.{Mode, update_card, seat_card, extend_card_with_tx}
use gptshare.Pool.Extend.Keeps.{Keeps, update_card-Keeps, seat_card-Keeps}
use gptshare.Pool.Extend.Sound.{extend_tx-IsSound}
use gptshare.Pool.Books.Defs.{IsSound, nothing, Books-same}
use gptshare.Pool.CardAction.{
  Action, Outcome, Operation, Cards, Done, known_action, is_different, read_action_card,
  prior_operation, replay_operation, open_target, renew_card, target_group, join_group, seat_source,
  add_different, run_action, fresh_action, commit, decide_action, apply_card_action,
}

renew_card-IsSound :
    (now : ℕ) (target source : Card) (m : Bool) (db : Db) {r : Db × Mode}
    → IsSound db
    → renew_card now target source m db ≡ ok r
    → IsSound r.0
unfolding renew_card
renew_card-IsSound now target source m db b h =
    let (extended, e, h1) =
      >>=-eq-ok (extend_card_with_tx now target.id source.duration_days m db) _ h in
    let (consumed, c, h2) =
      >>=-eq-ok
        (update_card (unused_card source.id) (λ c. record c { status = CardStatus.consumed })
          extended.0)
        _ h1 in
    subst (λ (q : Db × Mode). IsSound q.0) (ok-injective h2)
      (update_card-Keeps (unused_card source.id) _ extended.0
        (extend_tx-IsSound now target.id source.duration_days m db b e) consumed c)

target_group-IsSound :
    (target : Card) (s : Cards) → IsSound s.db → IsSound (target_group target s).0.db
unfolding target_group
target_group-IsSound target s b = elim (Option-cases target.group_id) [
  | inl e ↦ rw e (Books-same nothing s.db _ refl refl refl b)
  | inr (g, e) ↦ rw e b
]

seat_source-Keeps :
    (now : ℕ) (source : Card) (m : Bool) (db : Db)
    → IsSound db
    → Keeps (seat_source now source m db)
unfolding seat_source
seat_source-Keeps now source m db b after h =
    let (expires, e, h1) = >>=-eq-ok (card_time_after_days now source.duration_days) _ h in
    let (seated, s, h2) = >>=-eq-ok (seat_card source.id now expires _ db) _ h1 in
    update_card-Keeps (unused_card source.id) (redeemed_row now expires) seated
      (seat_card-Keeps source.id now expires _ db b seated s) after h2

add_different-IsSound :
    (now : ℕ) (target source : Card) (m : Bool) (s : Cards) {r : Cards}
    → IsSound s.db
    → add_different now target source m s ≡ ok r
    → IsSound r.db
unfolding add_different
add_different-IsSound now target source m s b h =
    let g = target_group target s in
    let (seated, e, h1) =
      >>=-eq-ok (seat_source now source m (join_group source.id g.1 g.0.db)) _ h in
    subst (λ (q : Cards). IsSound q.db) (ok-injective h1)
      (seat_source-Keeps now source m (join_group source.id g.1 g.0.db)
        (Books-same nothing g.0.db _ refl refl refl (target_group-IsSound target s b)) seated e)

run_renew-IsSound :
    (now : ℕ) (target source : Card) (m : Bool) (s : Cards) (d : Db × Mode → Done) {r : Done}
    → ((q : Db × Mode) → (d q).cards.db ≡ q.0)
    → IsSound s.db
    → (renew_card now target source m s.db >>= λ q. ok (d q)) ≡ ok r
    → IsSound r.cards.db
run_renew-IsSound now target source m s d same b h =
    let (done, e, h1) = >>=-eq-ok (renew_card now target source m s.db) _ h in
    subst (λ (q : Done). IsSound q.cards.db) (ok-injective h1)
      (subst IsSound (sym (same done)) (renew_card-IsSound now target source m s.db b e))

run_action-IsSound :
    (now : ℕ) (action : Action) (target source : Card) (m : Bool) (s : Cards) {r : Done}
    → IsSound s.db
    → run_action now action target source m s ≡ ok r
    → IsSound r.cards.db
unfolding run_action
run_action-IsSound now Action.different target source m s b h =
    let (added, e, h1) = >>=-eq-ok (add_different now target source m s) _ h in
    subst (λ (q : Done). IsSound q.cards.db) (ok-injective h1)
      (add_different-IsSound now target source m s b e)
run_action-IsSound now Action.renew target source m s b h =
    run_renew-IsSound now target source m s _ (λ q. refl) b h
run_action-IsSound now Action.other_action target source m s b h =
    run_renew-IsSound now target source m s _ (λ q. refl) b h

fresh_action-IsSound :
    (now : ℕ) (action : Action) (target source : Card) (m : Bool) (s : Cards) {r : Cards × Outcome}
    → IsSound s.db
    → fresh_action now action target source m s ≡ ok r
    → IsSound r.0.db
unfolding fresh_action
fresh_action-IsSound now action target source m s b h =
    let (u, g, h1) =
      >>=-eq-ok (guard (is_unused source.status && open_target target.status) card_state_conflict) _
        h in
    let (v, g', h2) =
      >>=-eq-ok
        (guard (not (is_different action && not (is_some target.redeemed_at))) invalid_card_action)
        _ h1 in
    let (done, e, h3) = >>=-eq-ok (run_action now action target source m s) _ h2 in
    let (c, f, h4) =
      >>=-eq-ok (or_fail (find_card done.card_id done.cards.db.cards) no_rows) _ h3 in
    subst (λ (q : Cards × Outcome). IsSound q.0.db) (ok-injective h4)
      (Books-same nothing done.cards.db _ refl refl refl
        (run_action-IsSound now action target source m s b e))

committed :
    (preview : Bool) (s : Cards) (r : Cards × Outcome)
    → IsSound s.db
    → IsSound r.0.db
    → IsSound (commit preview s r).0.db
committed true s r b b' = b
committed false s r b b' = b'

decide_action-IsSound :
    (now : ℕ) (action : Action) (target source : Card) (preview m : Bool) (prior : Option Operation)
    (s : Cards) {r : Cards × Outcome}
    → IsSound s.db
    → decide_action now action target source preview m prior s ≡ ok r
    → IsSound r.0.db
unfolding decide_action
decide_action-IsSound now action target source preview m (some o) s b h =
    let (outcome, e, h1) = >>=-eq-ok (replay_operation action target.id o) _ h in
    subst (λ (q : Cards × Outcome). IsSound q.0.db) (ok-injective h1) b
decide_action-IsSound now action target source preview m none s b h =
    let (r, e, h1) = >>=-eq-ok (fresh_action now action target source m s) _ h in
    subst (λ (q : Cards × Outcome). IsSound q.0.db) (ok-injective h1)
      (committed preview s r b (fresh_action-IsSound now action target source m s b e))

-- What a call that went through has read.
pub record Passed (now : ℕ) (action : Action) (target_hash source_hash : ℕ) (preview m : Bool)
    (s : Cards) (r : Cards × Outcome) : Type 0 where
  pub known : known_action action ≡ true
  pub target : Card
  pub source : Card
  pub target_read : read_action_card target_hash s.db ≡ ok target
  pub source_read : read_action_card source_hash s.db ≡ ok source
  pub apart : (target.id == source.id) ≡ false
  pub decided :
      decide_action now action target source preview m (prior_operation source.id s.operations) s
      ≡ ok r

not-true : (b : Bool) → not b ≡ true → b ≡ false
not-true true h = sym h
not-true false h = refl

pub apply-Passed :
    (now : ℕ) (action : Action) (target_hash source_hash : ℕ) (preview m : Bool) (s : Cards)
    {r : Cards × Outcome}
    → apply_card_action now action target_hash source_hash preview m s ≡ ok r
    → Passed now action target_hash source_hash preview m s r
unfolding apply_card_action
apply-Passed now action th sh preview m s h =
    let (u, g, h1) = >>=-eq-ok (guard (known_action action) invalid_card_action) _ h in
    let (target, t, h2) = >>=-eq-ok (read_action_card th s.db) _ h1 in
    let (source, e, h3) = >>=-eq-ok (read_action_card sh s.db) _ h2 in
    let (v, a, h4) = >>=-eq-ok (guard (not (target.id == source.id)) invalid_card_action) _ h3 in
    record {
      known = guard-eq-ok (known_action action) invalid_card_action g;
      target = target;
      source = source;
      target_read = t;
      source_read = e;
      apart = not-true _ (guard-eq-ok (not (target.id == source.id)) invalid_card_action a);
      decided = h4;
    }

-- A card action that succeeds, a renewal or a second card of the group, replayed or previewed or
-- carried out, keeps the database sound.
pub card_action-IsSound :
    (now : ℕ) (action : Action) (target_hash source_hash : ℕ) (preview monitor_available : Bool)
    (s : Cards) {r : Cards × Outcome}
    → IsSound s.db
    → apply_card_action now action target_hash source_hash preview monitor_available s ≡ ok r
    → IsSound r.0.db
card_action-IsSound now action th sh preview m s b h =
    let p = apply-Passed now action th sh preview m s h in
    decide_action-IsSound now action p.target p.source preview m _ s b p.decided
