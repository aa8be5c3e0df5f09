-- ===== src/Pool/CardAction/Replay.antt =====
-- A card action that is tried first, carried out, and sent again.
use gptshare.Base.{
  ℕ, ◌≡◌, refl, sym, subst, ◌∙◌, Bool, true, false, not, ◌&&◌, Option, none, some, ◌==◌,
  Option-cases, inl, inr, is_some, arith,
}
use gptshare.Pool.Types.{
  Card, CardStatus, Db, Result, ok, err, no_rows, card_state_conflict, invalid_card_action, or_fail,
  or_fail-eq-ok, guard, ◌>>=◌, >>=-eq-ok, ok-injective,
}
use gptshare.Pool.Tables.{is_unused}
use gptshare.Pool.Candidate.{find_card}
use gptshare.Pool.Seats.{card_time_after_days}
use gptshare.Pool.Redeem.{unused_card, redeemed_row}
use gptshare.Pool.Extend.{Mode, update_card, seat_card, extend_card_with_tx}
use gptshare.Pool.Extend.Keys.{
  Keys, by_hash, update-Keys, update_card-Keys, seat_card-cards, extend_tx-Keys,
}
use gptshare.Pool.CardAction.{
  Action, Outcome, Operation, Cards, Done, known_action, is_different, read_action_card,
  prior_operation, replay_operation, open_target, renew_card, with_group, target_group, join_group,
  seat_source, add_different, run_action, fresh_action, decide_action, apply_card_action,
}

-- The same calls, and another continuation after them.
bind-past {ι κ λ'} :
    {A : Type ι} {B : Type κ} {C : Type λ'} (call : Result A) (f : A → Result C) (g : A → Result B)
    (last : B → Result C)
    → ((x : A) → f x ≡ g x >>= last)
    → call >>= f ≡ (call >>= g) >>= last
bind-past (err e) f g last h = refl
bind-past (ok x) f g last h = h x

decide-preview :
    (now : ℕ) (action : Action) (target source : Card) (m : Bool) (prior : Option Operation)
    (s : Cards)
    → decide_action now action target source true m prior s
      ≡ decide_action now action target source false m prior s >>= λ r. ok (s, r.1)
unfolding decide_action
decide-preview now action target source m (some o) s =
    bind-past (replay_operation action target.id o) _ _ _ (λ x. refl)
decide-preview now action target source m none s =
    bind-past (fresh_action now action target source m s) _ _ _ (λ x. refl)

-- A preview returns what the action itself would return, whether a result or an error, and leaves
-- all tables as they are.
pub preview-apply :
    (now : ℕ) (action : Action) (target_hash source_hash : ℕ) (monitor_available : Bool) (s : Cards)
    → apply_card_action now action target_hash source_hash true monitor_available s
      ≡ apply_card_action now action target_hash source_hash false monitor_available s >>= λ r.
          ok (s, r.1)
unfolding apply_card_action
preview-apply now action th sh m s =
    bind-past (guard (known_action action) invalid_card_action) _ _ _ λ u.
      bind-past (read_action_card th s.db) _ _ _ λ target.
        bind-past (read_action_card sh s.db) _ _ _ λ source.
          bind-past (guard (not (target.id == source.id)) invalid_card_action) _ _ _ λ v.
            decide-preview now action target source m (prior_operation source.id s.operations) s

renew_card-Keys :
    (now : ℕ) (target source : Card) (m : Bool) (db : Db) {r : Db × Mode}
    → renew_card now target source m db ≡ ok r
    → Keys db.cards r.0.cards
unfolding renew_card
renew_card-Keys now target source m db h =
    let (extended, e, h1) =
      >>=-eq-ok (extend_card_with_tx now target.id source.duration_days m db) _ h in
    let (consumed, c, h2) =
      >>=-eq-ok
        (update_card (unused_card source.id) (λ c. record c { status = CardStatus.consumed })
          extended.0)
        _ h1 in
    let first = extend_tx-Keys now target.id source.duration_days m db e in
    let second = update_card-Keys (unused_card source.id) _ extended.0 (λ c. refl) (λ c. refl) c in
    subst (λ (q : Db × Mode). Keys db.cards q.0.cards) (ok-injective h2)
      (λ hash. second hash ∙ first hash)

target_group-Keys : (target : Card) (s : Cards) → Keys s.db.cards (target_group target s).0.db.cards
unfolding target_group
target_group-Keys target s = elim (Option-cases target.group_id) [
  | inl e ↦ rw e (
      update-Keys (λ c. c.id == target.id) (with_group s.next_group) s.db.cards (λ c. refl)
        (λ c. refl))
  | inr (g, e) ↦ rw e (λ hash. refl)
]

add_different-Keys :
    (now : ℕ) (target source : Card) (m : Bool) (s : Cards) {r : Cards}
    → add_different now target source m s ≡ ok r
    → Keys s.db.cards r.db.cards
unfolding add_different seat_source
add_different-Keys now target source m s h =
    let g = target_group target s in
    let joined = join_group source.id g.1 g.0.db in
    let (marked, e, h1) = >>=-eq-ok (seat_source now source m joined) _ h in
    let (expires, t, e1) = >>=-eq-ok (card_time_after_days now source.duration_days) _ e in
    let (seated, c, e2) = >>=-eq-ok (seat_card source.id now expires _ joined) _ e1 in
    let last =
      update_card-Keys (unused_card source.id) (redeemed_row now expires) seated (λ c. refl)
        (λ c. refl) e2 in
    let kept : Keys joined.cards marked.cards =
      rw (seat_card-cards source.id now expires _ joined c) at last in
    let grouped =
      update-Keys (unused_card source.id) (with_group g.1) g.0.db.cards (λ c. refl) (λ c. refl) in
    subst (λ (q : Cards). Keys s.db.cards q.db.cards) (ok-injective h1)
      (λ hash. kept hash ∙ grouped hash ∙ target_group-Keys target s hash)

run_renew-Keys :
    (now : ℕ) (target source : Card) (m : Bool) (s : Cards) (d : Db × Mode → Done) {r : Done}
    → ((q : Db × Mode) → (d q).cards.db ≡ q.0)
    → (renew_card now target source m s.db >>= λ q. ok (d q)) ≡ ok r
    → Keys s.db.cards r.cards.db.cards
run_renew-Keys now target source m s d same h =
    let (done, e, h1) = >>=-eq-ok (renew_card now target source m s.db) _ h in
    subst (λ (q : Done). Keys s.db.cards q.cards.db.cards) (ok-injective h1)
      (subst (λ (q : Db). Keys s.db.cards q.cards) (sym (same done))
        (renew_card-Keys now target source m s.db e))

run_action-Keys :
    (now : ℕ) (action : Action) (target source : Card) (m : Bool) (s : Cards) {r : Done}
    → run_action now action target source m s ≡ ok r
    → Keys s.db.cards r.cards.db.cards
unfolding run_action
run_action-Keys now Action.different target source m s h =
    let (added, e, h1) = >>=-eq-ok (add_different now target source m s) _ h in
    subst (λ (q : Done). Keys s.db.cards q.cards.db.cards) (ok-injective h1)
      (add_different-Keys now target source m s e)
run_action-Keys now Action.renew target source m s h =
    run_renew-Keys now target source m s _ (λ q. refl) h
run_action-Keys now Action.other_action target source m s h =
    run_renew-Keys now target source m s _ (λ q. refl) h

-- What an action that was carried out leaves for the next one of its source.
pub record Spent (action : Action) (target_id source_id : ℕ) (s : Cards) (r : Cards × Outcome)
    : Type 0 where
  pub keys : Keys s.db.cards r.0.db.cards
  pub entry :
      prior_operation source_id r.0.operations
      ≡ some (record {
        action = action;
        target_card_id = target_id;
        source_card_id = source_id;
        result = r.1;
      })
  pub names : (r.1.target_card_id ≡ target_id) × (r.1.source_card_id ≡ source_id)

pub fresh-Spent :
    (now : ℕ) (action : Action) (target source : Card) (m : Bool) (s : Cards) {r : Cards × Outcome}
    → fresh_action now action target source m s ≡ ok r
    → Spent action target.id source.id s r
unfolding fresh_action prior_operation
fresh-Spent now action target source m s h =
    let (u, g, h1) =
      >>=-eq-ok (guard (is_unused source.status && open_target target.status) card_state_conflict) _
        h in
    let (v, g', h2) =
      >>=-eq-ok
        (guard (not (is_different action && not (is_some target.redeemed_at))) invalid_card_action)
        _ h1 in
    let (done, e, h3) = >>=-eq-ok (run_action now action target source m s) _ h2 in
    let (c, f, h4) =
      >>=-eq-ok (or_fail (find_card done.card_id done.cards.db.cards) no_rows) _ h3 in
    subst (Spent action target.id source.id s) (ok-injective h4) (record {
      keys = run_action-Keys now action target source m s e;
      entry = ground arith;
      names = (refl, refl);
    })

-- A card that was read is found by its code afterwards too.
pub read_again :
    (hash : ℕ) (before after : Db) (c : Card)
    → Keys before.cards after.cards
    → read_action_card hash before ≡ ok c
    → (d : Card) × (read_action_card hash after ≡ ok d) × (d.id ≡ c.id)
unfolding read_action_card
read_again hash before after c keys h =
    let found = or_fail-eq-ok (by_hash hash before.cards) no_rows h in
    let same = keys hash in
    elim (Option-cases (by_hash hash after.cards)) [
      | inl n ↦ absurd (ground (arith, same, found, n))
      | inr (d, e) ↦ (d, rw e refl, ground (arith, same, found, e))
    ]
