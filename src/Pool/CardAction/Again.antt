-- ===== src/Pool/CardAction/Again.antt =====
-- A source card whose action was carried out: the replay of card_operations in applyCardAction.
use gptshare.Base.{
  ℕ, ◌≡◌, refl, sym, subst, ◌∙◌, Bool, true, false, ◌&&◌, some, ◌==◌, Option-cases, Bool-cases, inl,
  inr, arith,
}
use gptshare.Pool.Types.{Card, ok, err, card_action_conflict, ◌>>=◌, >>=-eq-ok, ok-injective}
use gptshare.Pool.CardAction.{
  Action, Outcome, Operation, Cards, known_action, same_action, read_action_card, prior_operation,
  replay, replay_operation, fresh_action, decide_action, apply_card_action,
}
use gptshare.Pool.CardAction.Sound.{Passed, apply-Passed}
use gptshare.Pool.CardAction.Replay.{fresh-Spent, read_again}

apply-read :
    (now : ℕ) (action : Action) (th sh : ℕ) (preview m : Bool) (s : Cards) (target source : Card)
    → known_action action ≡ true
    → read_action_card th s.db ≡ ok target
    → read_action_card sh s.db ≡ ok source
    → (target.id == source.id) ≡ false
    → apply_card_action now action th sh preview m s
      ≡ decide_action now action target source preview m (prior_operation source.id s.operations) s
unfolding apply_card_action
apply-read now action th sh preview m s target source k t e a = rw (k, t, e, a) refl

decide-entry :
    (now : ℕ) (action : Action) (target source : Card) (preview m : Bool) (s : Cards)
    (o : Operation)
    → prior_operation source.id s.operations ≡ some o
    → decide_action now action target source preview m (prior_operation source.id s.operations) s
      ≡ (replay_operation action target.id o >>= λ outcome. ok (s, outcome))
unfolding decide_action
decide-entry now action target source preview m s o e = rw e refl

same_action_refl : (a : Action) → same_action a a ≡ true
same_action_refl Action.renew = refl
same_action_refl Action.different = refl
same_action_refl Action.other_action = refl

replayed_same :
    (action : Action) (i j : ℕ) (o : Operation)
    → i ≡ j
    → o.target_card_id ≡ j
    → o.action ≡ action
    → replay_operation action i o ≡ ok (replay o.result)
unfolding replay_operation
replayed_same action i j o same at_ act = ground (arith, same, at_, act, same_action_refl action)

replay-replay :
    (action : Action) (i : ℕ) (o : Operation) {x : Outcome}
    → replay_operation action i o ≡ ok x
    → replay_operation action i o ≡ ok (replay x)
unfolding replay_operation
replay-replay action i o h =
    elim (Bool-cases (o.target_card_id == i && same_action o.action action)) [
      | inl e ↦ rw e (
          subst (λ (x : Outcome). ok (replay o.result) ≡ ok (replay x)) (ok-injective (rw e at h))
            refl)
      | inr e ↦ absurd (ground (arith, e, h))
    ]

never_fresh :
    (action : Action) (i : ℕ) (o : Operation) {x : Outcome}
    → replay_operation action i o ≡ ok x
    → x.replayed ≡ false
    → ⊥
unfolding replay_operation
never_fresh action i o h fresh =
    elim (Bool-cases (o.target_card_id == i && same_action o.action action)) [
      | inl e ↦ absurd (ground (arith, ok-injective (rw e at h), fresh))
      | inr e ↦ absurd (ground (arith, e, h))
    ]

refused :
    (action : Action) (i : ℕ) (o : Operation)
    → ((o.target_card_id == i) && same_action o.action action) ≡ false
    → replay_operation action i o ≡ err card_action_conflict
unfolding replay_operation
refused action i o h = rw h refl

-- A later call on tables in which the source's code and the target's find cards with an entry.
later_call :
    (now : ℕ) (action : Action) (th sh : ℕ) (preview m : Bool) (s : Cards) (t c : Card) (i j : ℕ)
    (o : Operation)
    → known_action action ≡ true
    → read_action_card th s.db ≡ ok t
    → read_action_card sh s.db ≡ ok c
    → t.id ≡ i
    → c.id ≡ j
    → (i == j) ≡ false
    → prior_operation j s.operations ≡ some o
    → apply_card_action now action th sh preview m s
      ≡ (replay_operation action i o >>= λ outcome. ok (s, outcome))
later_call now action th sh preview m s t c i j o k rt rc ti ci apart e =
    apply-read now action th sh preview m s t c k rt rc (rw (ti, ci) apart)
    ∙ decide-entry now action t c preview m s o (rw ci e)
    ∙ rw ti refl

-- What a call without a preview leaves: an entry of its source that answers the same call.
record Answered (now : ℕ) (action : Action) (th sh : ℕ) (s : Cards) (r : Cards × Outcome)
    : Type 0 where
  known : known_action action ≡ true
  target : Card
  source : Card
  target_read : read_action_card th r.0.db ≡ ok target
  source_read : read_action_card sh r.0.db ≡ ok source
  target_id : ℕ
  source_id : ℕ
  same_target : target.id ≡ target_id
  same_source : source.id ≡ source_id
  apart : (target_id == source_id) ≡ false
  op : Operation
  stored : prior_operation source_id r.0.operations ≡ some op
  agrees : replay_operation action target_id op ≡ ok (replay r.1)
  named :
      r.1.replayed ≡ false
      → (op.action ≡ action)
        × (op.target_card_id ≡ r.1.target_card_id)
        × (source_id ≡ r.1.source_card_id)

answered :
    (now : ℕ) (action : Action) (th sh : ℕ) (m : Bool) (s : Cards) {r : Cards × Outcome}
    → Passed now action th sh false m s r
    → Answered now action th sh s r
unfolding decide_action
answered now action th sh m s {r} p =
    elim (Option-cases (prior_operation p.source.id s.operations)) [
      | inr (o, e) ↦
          let (x, agreed, h1) =
            >>=-eq-ok (replay_operation action p.target.id o) _
              (rw (e, decide_action) at p.decided) in
          subst (Answered now action th sh s) (ok-injective h1) (record {
            known = p.known;
            target = p.target;
            source = p.source;
            target_read = p.target_read;
            source_read = p.source_read;
            target_id = p.target.id;
            source_id = p.source.id;
            same_target = refl;
            same_source = refl;
            apart = p.apart;
            op = o;
            stored = e;
            agrees = replay-replay action p.target.id o agreed;
            named = λ fresh. absurd (never_fresh action p.target.id o agreed fresh);
          })
      | inl e ↦
          let (q, done, h1) =
            >>=-eq-ok (fresh_action now action p.target p.source m s) _
              (rw (e, decide_action) at p.decided) in
          let spent = fresh-Spent now action p.target p.source m s done in
          let (t, rt, ti) = read_again th s.db q.0.db p.target spent.keys p.target_read in
          let (c, rc, ci) = read_again sh s.db q.0.db p.source spent.keys p.source_read in
          subst (Answered now action th sh s) (ok-injective h1) (record {
            known = p.known;
            target = t;
            source = c;
            target_read = rt;
            source_read = rc;
            target_id = p.target.id;
            source_id = p.source.id;
            same_target = ti;
            same_source = ci;
            apart = p.apart;
            op = record {
              action = action;
              target_card_id = p.target.id;
              source_card_id = p.source.id;
              result = q.1;
            };
            stored = spent.entry;
            agrees =
                replayed_same action p.target.id p.target.id
                  (record {
                    action = action;
                    target_card_id = p.target.id;
                    source_card_id = p.source.id;
                    result = q.1;
                  })
                  refl refl refl;
            named = λ fresh. (refl, sym spent.names.0, sym spent.names.1);
          })
    ]

-- A card action that went through without being a preview can be sent again, at any time, as a
-- preview or not: the answer is the stored result, marked as replayed, and nothing is changed.
pub card_action-replays :
    (now later : ℕ) (action : Action) (target_hash source_hash : ℕ) (m m' preview : Bool)
    (s : Cards) {r : Cards × Outcome}
    → apply_card_action now action target_hash source_hash false m s ≡ ok r
    → apply_card_action later action target_hash source_hash preview m' r.0 ≡ ok (r.0, replay r.1)
card_action-replays now later action th sh m m' preview s {r} h =
    let a = answered now action th sh m s (apply-Passed now action th sh false m s h) in
    later_call later action th sh preview m' r.0 a.target a.source a.target_id a.source_id a.op
      a.known a.target_read a.source_read a.same_target a.same_source a.apart a.stored
    ∙ rw a.agrees refl

-- Once a card was used as the source of an action on a target, a call that uses its code on another
-- card, or for the other action, is refused as a conflict.
pub card_action-spends :
    (now later : ℕ) (action other : Action) (target_hash source_hash other_hash : ℕ)
    (m m' preview : Bool) (s : Cards) {r : Cards × Outcome} (t : Card)
    → apply_card_action now action target_hash source_hash false m s ≡ ok r
    → r.1.replayed ≡ false
    → known_action other ≡ true
    → read_action_card other_hash r.0.db ≡ ok t
    → (t.id == r.1.source_card_id) ≡ false
    → ((r.1.target_card_id == t.id) && same_action action other) ≡ false
    → apply_card_action later other other_hash source_hash preview m' r.0 ≡ err card_action_conflict
card_action-spends now later action other th sh oh m m' preview s {r} t h fresh known read apart
      diff =
    let a = answered now action th sh m s (apply-Passed now action th sh false m s h) in
    let (act, at_, src) = a.named fresh in
    later_call later other oh sh preview m' r.0 t a.source t.id a.source_id a.op known read
      a.source_read refl a.same_source (rw src apart) a.stored
    ∙ rw (refused other t.id a.op (rw (act, at_) diff)) refl
