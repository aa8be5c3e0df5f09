-- ===== src/Pool/CardAction.antt =====
-- Renewal of a card by the days of another one, and a second card of its group: applyCardAction and
-- ApplyCardAction of card_actions.go over the tables cards, card_groups and card_operations.
pub mod Replay
pub mod Sound
pub mod Again
use gptshare.Base.{
  ℕ, zero, suc, Bool, true, false, not, ◌&&◌, ◌||◌, Option, none, some, List, [], ◌∷◌, ltb, ◌==◌,
  if◌then◌else◌, update_where, find_where, is_some,
}
use gptshare.Pool.Types.{
  Account, Card, CardStatus, Allocation, Audit, Db, Error, Result, ok, err, no_rows,
  card_state_conflict, invalid_card_action, card_action_conflict, sqlite_busy, ◌>>=◌, ◌>>◌, guard,
  or_fail,
}
use gptshare.Pool.Tables.{is_unused, is_redeemed}
use gptshare.Pool.Candidate.{find_card, previous_account, select_card_candidate}
use gptshare.Pool.Seats.{card_time_after_days, active_primary}
use gptshare.Pool.Redeem.{redeemed_row, unused_card}
use gptshare.Pool.Extend.{Mode, card_expired, update_card, seat_card, extend_card_with_tx}

pub data Action : Type 0 where
  renew different other_action : Action

-- `Mode` of a renewal, and "different".
pub data ActionMode : Type 0 where
  renewed : Mode → ActionMode
  different : ActionMode

-- CardActionResult
pub record Outcome : Type 0 where
  pub action : Action
  pub mode : ActionMode
  pub card_id : ℕ
  pub target_card_id : ℕ
  pub source_card_id : ℕ
  pub added_days : ℕ
  pub duration_days : ℕ
  pub status : CardStatus
  pub original_status : CardStatus
  pub before_expires_at : Option ℕ
  pub expires_at : Option ℕ
  pub account_changed : Bool
  pub replayed : Bool

-- A row of card_operations, whose result_json is read back as it was written.
pub record Operation : Type 0 where
  pub action : Action
  pub target_card_id : ℕ
  pub source_card_id : ℕ
  pub result : Outcome

-- The database with the two tables that only these transactions use.
pub record Cards : Type 0 where
  pub db : Db
  pub next_group : ℕ
  pub operations : List Operation

abbrev pub known_action : Action → Bool
known_action Action.renew = true
known_action Action.different = true
known_action Action.other_action = false

abbrev pub is_different : Action → Bool
is_different Action.different = true
is_different _ = false

abbrev pub same_action : Action → Action → Bool
same_action Action.renew Action.renew = true
same_action Action.different Action.different = true
same_action Action.other_action Action.other_action = true
same_action _ _ = false

-- readActionCard
unfoldable pub read_action_card : ℕ → Db → Result Card
read_action_card hash db = or_fail (find_where (λ c. c.code_hash == hash) db.cards) no_rows

unfoldable pub prior_operation : ℕ → List Operation → Option Operation
prior_operation source_id = find_where (λ o. o.source_card_id == source_id)

abbrev pub replay : Outcome → Outcome
replay o = record o { replayed = true }

-- The source was used before: the stored result for the same action and target, or a conflict.
unfoldable pub replay_operation : Action → ℕ → Operation → Result Outcome
replay_operation action target_id o =
    if o.target_card_id == target_id && same_action o.action action
    then ok (replay o.result)
    else err card_action_conflict

abbrev pub open_target : CardStatus → Bool
open_target s = is_unused s || is_redeemed s || card_expired s

-- OriginalStatus: a redeemed card whose time is over counts as expired.
abbrev pub original_status : ℕ → Card → CardStatus
original_status now target = elim target.expires_at [
  | none ↦ target.status
  | some t ↦
      if is_redeemed target.status && not (ltb now t) then CardStatus.expired else target.status
]

abbrev pub current_account : ℕ → Db → Option ℕ
current_account card_id db = elim (find_where (active_primary card_id) db.allocations) [
  | none ↦ none
  | some l ↦ some l.account_id
]

-- AccountChanged
abbrev pub changed : Option ℕ → Option ℕ → Bool
changed none previous = false
changed (some k) none = true
changed (some k) (some j) = not (k == j)

-- The branch "renew".
unfoldable pub renew_card : ℕ → Card → Card → Bool → Db → Result (Db × Mode)
renew_card now target source monitor_available db = do
  extended ← extend_card_with_tx now target.id source.duration_days monitor_available db
  consumed ←
      update_card (unused_card source.id) (λ c. record c { status = CardStatus.consumed })
        extended.0
  ok (consumed, extended.1)

abbrev pub with_group : ℕ → Card → Card
with_group g c = record c { group_id = some g }

-- The group of the target, made when there is none, with the next free group.
unfoldable pub target_group : Card → Cards → Cards × ℕ
target_group target s = elim target.group_id [
  | some g ↦ (s, g)
  | none ↦ (
    record s {
      db = record s.db {
        cards = update_where (λ c. c.id == target.id) (with_group s.next_group) s.db.cards;
      };
      next_group = suc s.next_group;
    },
    s.next_group,
  )
]

abbrev pub join_group : ℕ → ℕ → Db → Db
join_group source_id g db = record db {
  cards = update_where (unused_card source_id) (with_group g) db.cards;
}

-- The seat and the update of the source in the branch "different".
unfoldable pub seat_source : ℕ → Card → Bool → Db → Result Db
seat_source now source monitor_available db = do
  expires ← card_time_after_days now source.duration_days
  seated ←
      seat_card source.id now expires
        (select_card_candidate now expires monitor_available 0 source.id false db) db
  update_card (unused_card source.id) (redeemed_row now expires) seated

unfoldable pub add_different : ℕ → Card → Card → Bool → Cards → Result Cards
add_different now target source monitor_available s =
    let (grouped, g) = target_group target s in
    seat_source now source monitor_available (join_group source.id g grouped.db) >>= λ seated.
    ok (record grouped { db = seated })

-- What the two branches leave: the tables, the card of the result, its mode and AccountChanged.
pub record Done : Type 0 where
  pub cards : Cards
  pub card_id : ℕ
  pub mode : ActionMode
  pub account_changed : Bool

unfoldable pub run_action : ℕ → Action → Card → Card → Bool → Cards → Result Done
run_action now Action.different target source monitor_available s = do
  added ← add_different now target source monitor_available s
  ok (record { cards = added; card_id = source.id; mode = different; account_changed = false })
run_action now _ target source monitor_available s = do
  done ← renew_card now target source monitor_available s.db
  ok (record {
    cards = record s { db = done.0 };
    card_id = target.id;
    mode = renewed done.1;
    account_changed = changed (current_account target.id done.0) (previous_account target.id s.db);
  })

abbrev pub outcome_of : ℕ → Action → Card → Card → Done → Card → Outcome
outcome_of now action target source done c = record {
  action = action;
  mode = done.mode;
  card_id = done.card_id;
  target_card_id = target.id;
  source_card_id = source.id;
  added_days = source.duration_days;
  duration_days = c.duration_days;
  status = c.status;
  original_status = original_status now target;
  before_expires_at = target.expires_at;
  expires_at = c.expires_at;
  account_changed = done.account_changed;
  replayed = false;
}

abbrev audit_of : Action → ℕ → Audit
audit_of Action.different = Audit.cards_different
audit_of _ = Audit.cards_renew

-- INSERT INTO card_operations, whose source_card_id is unique, and the audit.
abbrev pub log_action : Outcome → Cards → Cards
log_action o s = record s {
  db = record s.db { audits = audit_of o.action o.target_card_id ∷ s.db.audits };
  operations =
      record {
        action = o.action;
        target_card_id = o.target_card_id;
        source_card_id = o.source_card_id;
        result = o;
      }
      ∷ s.operations;
}

-- The transaction on a source that was not used before, up to its end.
unfoldable pub fresh_action : ℕ → Action → Card → Card → Bool → Cards → Result (Cards × Outcome)
fresh_action now action target source monitor_available s = do
  guard (is_unused source.status && open_target target.status) card_state_conflict
  guard (not (is_different action && not (is_some target.redeemed_at))) invalid_card_action
  done ← run_action now action target source monitor_available s
  c ← or_fail (find_card done.card_id done.cards.db.cards) no_rows
  let outcome = outcome_of now action target source done c
  ok (log_action outcome done.cards, outcome)

-- A preview rolls back what it did.
abbrev pub commit : Bool → Cards → Cards × Outcome → Cards × Outcome
commit preview s r = (if preview then s else r.0, r.1)

unfoldable pub decide_action :
    ℕ → Action → Card → Card → Bool → Bool → Option Operation → Cards → Result (Cards × Outcome)
decide_action now action target source preview monitor_available (some o) s =
    replay_operation action target.id o >>= λ outcome. ok (s, outcome)
decide_action now action target source preview monitor_available none s =
    fresh_action now action target source monitor_available s >>= λ r. ok (commit preview s r)

-- applyCardAction
unfoldable pub apply_card_action :
    ℕ → Action → ℕ → ℕ → Bool → Bool → Cards → Result (Cards × Outcome)
apply_card_action now action target_hash source_hash preview monitor_available s = do
  guard (known_action action) invalid_card_action
  target ← read_action_card target_hash s.db
  source ← read_action_card source_hash s.db
  guard (not (target.id == source.id)) invalid_card_action
  decide_action now action target source preview monitor_available
      (prior_operation source.id s.operations) s

abbrev is_busy : Error → Bool
is_busy sqlite_busy = true
is_busy _ = false

-- ApplyCardAction: `attempt i` is what the i-th run of applyCardAction returns; it is tried again while
-- the database is busy.
unfoldable pub retry_busy {ℓ} : {A : Type ℓ} → ℕ → ℕ → (ℕ → Result A) → Result A
retry_busy zero i attempt = attempt i
retry_busy (suc n) i attempt =
    let rest = retry_busy n (suc i) attempt in
    elim (attempt i) [ ok r ↦ ok r | err e ↦ if is_busy e then rest else err e ]
