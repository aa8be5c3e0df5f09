-- ===== src/Monitor/Store.antt =====
-- The transaction of applyResult (internal/monitor/repository.go), with closeEpoch, insertChange,
-- insertAlert and registryLevel, and EnqueueAccountTx of internal/allocationsync/outbox.go.
use gptshare.Base.{
  ℕ, suc, ◌+◌, Bool, true, false, not, ◌&&◌, ◌||◌, Option, none, some, List, [], ◌∷◌, ◌==◌,
  if◌then◌else◌, is_some, is_none, update_where, exists_where, find_where,
}
use gptshare.Pool.Message.{Plan, EventType, is_free}
use gptshare.Monitor.Types.{
  Life, Check, Code, Level, Account, Epoch, Change, Logged, Message, Store, PollResult, Record,
  is_alive, is_dead_normal, is_dead_banned, is_ok, is_normal_expiry,
}
use gptshare.Monitor.Judge.{Verdict, judge, next_due, nullable_error, fill_only_email}

-- What the transaction reads besides the tables: the registry of reviewed evidence (none without a
-- row, some none when its value is no JSON), the hash that names a signature and the jitter of a due
-- time, both of SHA-256.
pub record Config : Type 0 where
  pub min_interval : ℕ
  pub registry : ℕ → Option (Option Level)
  pub signature_for : ℕ → Code → ℕ
  pub jitter : ℕ → ℕ → ℕ

unfoldable pub registry_level : Option (Option Level) → Level
registry_level none = Level.contract_verified
registry_level (some none) = Level.unverified
registry_level (some (some level)) = level

abbrev life_number : Life → ℕ
life_number Life.alive = 0
life_number Life.dead_normal = 1
life_number Life.dead_banned = 2

abbrev check_number : Check → ℕ
check_number Check.check_pending = 0
check_number Check.check_ok = 1
check_number Check.check_error = 2
check_number Check.verification_required = 3
check_number Check.contract_changed = 4
check_number Check.reauthorization_required = 5

abbrev plan_number : Plan → ℕ
plan_number Plan.free = 0
plan_number Plan.plus = 1
plan_number Plan.team = 2
plan_number Plan.unknown = 3
plan_number Plan.other_plan = 4

abbrev expiry_number : Option ℕ → ℕ
expiry_number none = 0
expiry_number (some t) = suc t

abbrev pub has_id : ℕ → Account → Bool
has_id k a = a.id == k

abbrev pub live_id : ℕ → Account → Bool
live_id k a = a.id == k && not a.deleted

-- UPDATE accounts SET plan=?,... WHERE id=?
abbrev pub write_row : ℕ → ℕ → Code → Verdict → Account → Account
write_row now due code v a = record a {
  plan = v.plan;
  raw_plan = v.raw_plan;
  current_expiry = v.expiry;
  status = v.status;
  last_alive_at = if is_alive v.status && is_ok v.check then some now else a.last_alive_at;
  dead_at = v.dead_at;
  death_type = v.death_type;
  survival = v.survival;
  last_check = v.check;
  last_error = nullable_error v.check code;
  next_retry_at = next_due due v;
  polling_paused = v.paused;
  pause_reason = v.pause_reason;
  pending_signature = elim v.pending [ none ↦ none | some p ↦ some p.0 ];
  pending_detected = elim v.pending [ none ↦ none | some p ↦ some p.1 ];
}

abbrev pub fill_row : ℕ → Option ℕ × Option ℕ → Account → Account
fill_row provider fills a = record a {
  email = elim fills.0 [ none ↦ a.email | some e ↦ if a.email == 0 then e else a.email ];
  label = elim fills.1 [
    | none ↦ a.label
    | some l ↦ if a.label == 0 || a.label == a.provider_id then l else a.label
  ];
}

unfoldable pub fill_email : ℕ → Option ℕ × Option ℕ → List Account → List Account
fill_email k fills rows =
    if is_some fills.0 || is_some fills.1
    then update_where (live_id k) (fill_row k fills) rows
    else rows

unfoldable pub close_epoch : ℕ → Option (Life × ℕ × Option ℕ) → List Epoch → List Epoch
close_epoch k none epochs = epochs
close_epoch k (some (terminal, dead_at, survival)) epochs =
    update_where (λ e. e.id == k && is_none e.ended_at)
      (λ e. record e {
        ended_at = some dead_at;
        terminal_status = some terminal;
        dead_at = some dead_at;
        survival = survival;
      })
      epochs

-- The fields that the verdict changes, in the order in which they are logged.
abbrev add_if : Bool → Change → List Change → List Change
add_if true c rest = c ∷ rest
add_if false c rest = rest

unfoldable pub changes_of : Account → Verdict → List Change
changes_of a v =
    add_if (not (life_number a.status == life_number v.status))
      (Change.status_change a.status v.status)
      (add_if (not (plan_number a.plan == plan_number v.plan)) (Change.plan_change a.plan v.plan) (
        add_if (not (expiry_number a.current_expiry == expiry_number v.expiry))
          (Change.expiry_change a.current_expiry v.expiry)
          (add_if (not (check_number a.last_check == check_number v.check))
            (Change.check_change a.last_check v.check) [])))

-- insertChange for each of them; the newest row stands first.
unfoldable pub insert_changes : (Change → Logged) → List Change → List Logged → List Logged
insert_changes row [] log = log
insert_changes row (c ∷ cs) log = insert_changes row cs (row c ∷ log)

-- insertAlert: one alert for an epoch.
unfoldable pub insert_alert : ℕ → List ℕ → List ℕ
insert_alert epoch alerts = if exists_where (λ e. e == epoch) alerts then alerts else epoch ∷ alerts

abbrev pub bump_version : Account → Account
bump_version a = record a { sync_version = a.sync_version + 1 }

abbrev pub message_of : EventType → ℕ → Account → Message
message_of type now a = record {
  account_id = a.id;
  version = a.sync_version;
  type = type;
  occurred_at = now;
  plan = a.plan;
  subscription_expiry =
      if is_free a.plan then now else elim a.current_expiry [ none ↦ a.auth_expiry | some t ↦ t ];
  status = a.status;
}

-- EnqueueAccountTx, which fails without the account's row.
unfoldable pub enqueue_account : EventType → ℕ → ℕ → Store → Option Store
enqueue_account type now k s =
    let rows = update_where (live_id k) bump_version s.accounts in
    elim (find_where (live_id k) rows) [
      | none ↦ none
      | some a ↦ some (record s { accounts = rows; outbox = message_of type now a ∷ s.outbox })
    ]

-- The two announcements of an account that has just died.
unfoldable pub announce_expiry : ℕ → ℕ → Account → Verdict → Store → Option Store
announce_expiry now k a v s =
    if not (is_dead_normal a.status) && is_dead_normal v.status
    then enqueue_account EventType.updated now k s
    else some s

unfoldable pub announce_ban : ℕ → Record → Account → Verdict → Store → Option Store
announce_ban now r a v s =
    if not (is_dead_banned a.status) && is_dead_banned v.status
    then enqueue_account EventType.dead_banned now r.id
        (record s { alerts = insert_alert r.epoch_id s.alerts })
    else some s

-- The writes of a verdict on the row `a`, before the announcements.
unfoldable pub write_verdict :
    Config → ℕ → ℕ → Record → PollResult → Account → Verdict → Store → Store
write_verdict cfg now interval r p a v s =
    let due = now + (interval + cfg.jitter r.id interval) in
    let logged : Change → Logged = λ c. record {
      account_id = r.id;
      epoch_id = r.epoch_id;
      at_ = now;
      change = c;
      code = p.code;
      level = v.level;
      signature = cfg.signature_for p.endpoint p.code;
    } in
    record s {
      accounts =
          fill_email r.id (fill_only_email a r p)
            (update_where (has_id r.id) (write_row now due p.code v) s.accounts);
      epochs = close_epoch r.epoch_id v.closes s.epochs;
      changes = insert_changes logged (changes_of a v) s.changes;
    }

unfoldable pub conclude :
    Config → ℕ → ℕ → Record → PollResult → Account → Option Verdict → Store → Option (Store × Bool)
conclude cfg now interval r p a none s = none
conclude cfg now interval r p a (some v) s =
    elim (announce_expiry now r.id a v (write_verdict cfg now interval r p a v s)) [
      | none ↦ none
      | some t ↦ elim (announce_ban now r a v t) [ none ↦ none | some u ↦ some (u, true) ]
    ]

-- The result came too late: the credential was replaced meanwhile, or polling was paused.
abbrev pub is_outdated : Account → PollResult → Bool
is_outdated a p =
    (not (p.generation == 0) && not (a.generation == p.generation))
    || (a.polling_paused && not (is_normal_expiry p.code))

unfoldable pub apply_to :
    Config → ℕ → ℕ → Record → PollResult → Account → Store → Option (Store × Bool)
apply_to cfg now interval r p a s =
    let signature = cfg.signature_for p.endpoint p.code in
    if is_outdated a p
    then some (s, false)
    else conclude cfg now interval r p a
        (judge cfg.min_interval now signature (registry_level (cfg.registry signature)) r a p) s

-- applyResult: none is an error, and the flag says whether the result was applied.
unfoldable pub apply_result : Config → ℕ → ℕ → Record → PollResult → Store → Option (Store × Bool)
apply_result cfg now interval r p s =
    if p.skipped then some (s, false) else elim (find_where (live_id r.id) s.accounts) [
      | none ↦ none
      | some a ↦ apply_to cfg now interval r p a s
    ]
