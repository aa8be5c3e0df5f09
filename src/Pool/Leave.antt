-- ===== src/Pool/Leave.antt =====
-- The retirement of one account by an administrator: RetireAccount of repository.go.
pub mod Items
pub mod Loop
pub mod Sound
use gptshare.Base.{
  ℕ, suc, ◌+◌, Bool, true, false, not, ◌&&◌, Option, none, some, List, [], ◌∷◌, ◌++◌, ltb, ◌==◌,
  if◌then◌else◌, update_where, count_where, exists_where, is_none,
}
use gptshare.Pool.Types.{
  Account, AccountStatus, Card, CardStatus, Allocation, AllocationState, Reason, Replacement, Audit,
  Db, Error, no_rows, no_account_capacity, account_replacement_unavailable, Result, ok, err, ◌>>=◌,
  ◌>>◌, guard, or_fail,
}
use gptshare.Pool.Tables.{is_redeemed, is_primary, is_grace, seat_of}
use gptshare.Pool.Candidate.{find_card, select_card_candidate}
use gptshare.Pool.Seats.{reserve_account_capacity, insert_allocation}
use gptshare.Pool.Sweep.{replace_row}
use gptshare.Pool.Retire.{archive_row}

-- retireAllocation
pub record Leaving : Type 0 where
  pub id : ℕ
  pub card_id : ℕ
  pub state : AllocationState
  pub valid_until : ℕ
  pub card_status : CardStatus
  pub card_expires_at : Option ℕ

-- RetireAccountResult
pub record Tally : Type 0 where
  pub replaced : ℕ
  pub closed : ℕ

abbrev pub leaving_of : Allocation → Card → Leaving
leaving_of l c = record {
  id = l.id;
  card_id = l.card_id;
  state = l.allocation_state;
  valid_until = l.valid_until;
  card_status = c.status;
  card_expires_at = c.expires_at;
}

abbrev pub leaving_row : ℕ → List Card → Allocation → List Leaving
leaving_row k cards l =
    if seat_of k l
    then elim (find_card l.card_id cards) [ none ↦ [] | some c ↦ leaving_of l c ∷ [] ]
    else []

-- The account's seats joined with their cards, ORDER BY id ASC.
unfoldable pub leaving : ℕ → List Card → List Allocation → List Leaving
leaving k cards [] = []
leaving k cards (l ∷ ls) = leaving k cards ls ++ leaving_row k cards l

abbrev is_revoked : CardStatus → Bool
is_revoked CardStatus.revoked = true
is_revoked _ = false

abbrev later : ℕ → Option ℕ → Bool
later now none = false
later now (some t) = ltb now t

-- effectivePrimary
unfoldable pub effective_primary : ℕ → Leaving → Bool
effective_primary now item =
    is_primary item.state
    && is_redeemed item.card_status
    && later now item.card_expires_at
    && ltb now item.valid_until

-- terminalState
unfoldable pub terminal_state : Leaving → AllocationState
terminal_state item =
    if is_grace item.state
    then AllocationState.replaced
    else if is_revoked item.card_status
    then AllocationState.revoked
    else AllocationState.expired

abbrev pub end_row : ℕ → AllocationState → Allocation → Allocation
end_row now state l = record l {
  allocation_state = state;
  active = false;
  replaced_at = some now;
  replacement_reason = some Reason.account_retired;
}

abbrev pub open_row : Leaving → Allocation → Bool
open_row item l = l.id == item.id && l.active

abbrev pub open_primary : Leaving → Allocation → Bool
open_primary item l = l.id == item.id && l.active && is_primary l.allocation_state

unfoldable pub close_seat : ℕ → Leaving → Db → Db
close_seat now item db = record db {
  allocations = update_where (open_row item) (end_row now (terminal_state item)) db.allocations;
}

unfoldable pub close_primary : ℕ → Leaving → Db → Db
close_primary now item db = record db {
  allocations =
      update_where (open_primary item) (replace_row now Reason.account_retired) db.allocations;
}

-- errors.Is(err, ErrNoAccountCapacity)
abbrev retire_error : Error → Error
retire_error no_account_capacity = account_replacement_unavailable
retire_error e = e

abbrev pub unavailable {ℓ} : {A : Type ℓ} → Result A → Result A
unavailable (ok row) = ok row
unavailable (err e) = err (retire_error e)

abbrev pub superseded_row : ℕ → Allocation → Allocation
superseded_row new_id l = record l { superseded_by = some new_id }

-- UPDATE allocations SET superseded_by_allocation_id, INSERT INTO replacement_history.
unfoldable pub log_retired : ℕ → ℕ → Leaving → Account → ℕ → Db → Db
log_retired now k item next new_id db = record db {
  allocations = update_where (λ l. l.id == item.id) (superseded_row new_id) db.allocations;
  history =
      record {
        card_id = item.card_id;
        old_account_id = k;
        new_account_id = next.id;
        reason = Reason.account_retired;
        replaced_at = now;
        grace_until = none;
      }
      ∷ db.history;
}

-- The candidate is sought with the card's expiry, which an effective primary has.
unfoldable pub move_away : ℕ → ℕ → Leaving → ℕ → Db → Result Db
move_away now k item expires db = do
  next ←
      or_fail (select_card_candidate now expires true k item.card_id false db)
        account_replacement_unavailable
  reserved ← unavailable (reserve_account_capacity next.id now (close_primary now item db))
  inserted ← insert_allocation item.card_id next.id now item.valid_until reserved
  ok (log_retired now k item next inserted.1 inserted.0)

abbrev pub retire_moved : ℕ → ℕ → Leaving → Option ℕ → Db → Result Db
retire_moved now k item none db = ok (close_seat now item db)
retire_moved now k item (some expires) db = move_away now k item expires db

-- One round of the loop.
unfoldable pub retire_seat : ℕ → ℕ → Leaving → Db → Result Db
retire_seat now k item db =
    if effective_primary now item
    then retire_moved now k item item.card_expires_at db
    else ok (close_seat now item db)

abbrev pub counted : ℕ → Leaving → Tally → Tally
counted now item t =
    if effective_primary now item
    then record t { replaced = suc t.replaced }
    else record t { closed = suc t.closed }

unfoldable pub retire_seats : ℕ → ℕ → List Leaving → Db × Tally → Result (Db × Tally)
retire_seats now k [] s = ok s
retire_seats now k (item ∷ items) s =
    retire_seat now k item s.0 >>= λ next. retire_seats now k items (next, counted now item s.1)

abbrev pub in_service : ℕ → Account → Bool
in_service k a = a.id == k && is_none a.archived_at

unfoldable pub archive_account : ℕ → ℕ → Db → Result Db
archive_account now k db =
    if count_where (in_service k) db.accounts == 1
    then ok (record db {
      accounts = update_where (in_service k) (archive_row now) db.accounts;
      audits = Audit.account_retired k ∷ db.audits;
    })
    else err no_rows

unfoldable pub retire_account : ℕ → ℕ → Db → Result (Db × Tally)
retire_account now k db = do
  guard (exists_where (in_service k) db.accounts) no_rows
  moved ←
      retire_seats now k (leaving k db.cards db.allocations)
        (db, record { replaced = 0; closed = 0 })
  archived ← archive_account now k moved.0
  ok (archived, moved.1)
