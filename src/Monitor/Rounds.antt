-- ===== src/Monitor/Rounds.antt =====
-- Rounds of polls: loadDueAccounts of internal/monitor/repository.go, and of service.go the claims that
-- RunScheduled and RefreshNow make in the map `active` and the counts of executeRun. A run is named by
-- a number from 1; 0 stands for the empty text.
pub mod Claims
use gptshare.Base.{
  ℕ, zero, suc, ◌+◌, ◌-◌, ◌≤◌, ◌≡◌, refl, Bool, true, false, not, ◌&&◌, ◌||◌, Option, none, some,
  List, [], ◌∷◌, leb, ◌==◌, if◌then◌else◌, length, where_rows, count_where, exists_where,
  find_where, arith,
}
use gptshare.Time.{text_key}
use gptshare.Monitor.Types.{Account, Check, Code, Epoch, Life, Record, Store, is_alive}

abbrev open_epoch : ℕ → Epoch → Bool
open_epoch k e = e.account_id == k && elim e.ended_at [ none ↦ true | some t ↦ false ]

-- A row of the query with polling_paused and last_check_state.
pub record Candidate : Type 0 where
  pub row : Record
  pub paused : Bool
  pub last_check : Check

abbrev retry_reached : ℕ → Option ℕ → Bool
retry_reached now none = true
retry_reached now (some t) = leb (text_key t) (text_key now)

-- The WHERE clause; `only` is 0 for a scheduled round.
unfoldable pub selected : ℕ → ℕ → Account → Bool
selected now only a =
    not a.deleted
    && is_alive a.status
    && (if only == 0
        then not a.polling_paused && retry_reached now a.next_retry_at
        else a.id == only)

-- The import time is read for survival only and given by `imported`.
abbrev candidate_of : (ℕ → ℕ) → Account → Epoch → Candidate
candidate_of imported a e = record {
  row = record {
    id = a.id;
    provider_id = a.provider_id;
    auth_expiry = a.auth_expiry;
    import_time = imported a.id;
    epoch_id = e.id;
    generation = a.generation;
  };
  paused = a.polling_paused;
  last_check = a.last_check;
}

-- The join with the account's open epoch, of which there is one at most; rows of accounts come in the
-- order of their ids.
unfoldable pub load_due_accounts : (ℕ → ℕ) → ℕ → ℕ → List Epoch → List Account → List Candidate
load_due_accounts imported now only epochs [] = []
load_due_accounts imported now only epochs (a ∷ rows) =
    let rest = load_due_accounts imported now only epochs rows in
    if selected now only a
    then elim (find_where (open_epoch a.id) epochs) [
      | none ↦ rest
      | some e ↦ candidate_of imported a e ∷ rest
    ]
    else rest

-- What executeRun gathers of one account.
pub data Polled : Type 0 where
  polled_ok : Polled
  polled_failed : Code → Polled
  polled_skipped : Code → Polled

abbrev is_ok_result : Polled → Bool
is_ok_result polled_ok = true
is_ok_result _ = false

abbrev is_failed_result : Polled → Bool
is_failed_result (polled_failed code) = true
is_failed_result _ = false

-- accounts_ok, accounts_failed and accounts_skipped.
pub record Counts : Type 0 where
  pub ok : ℕ
  pub failed : ℕ
  pub skipped : ℕ

abbrev is_skipped_result : Polled → Bool
is_skipped_result (polled_skipped code) = true
is_skipped_result _ = false

-- The end of executeRun: accounts that gave no result count as skipped.
unfoldable pub count_results : ℕ → List Polled → Counts
count_results total results =
    let ok = count_where is_ok_result results in
    let failed = count_where is_failed_result results in
    let skipped = count_where is_skipped_result results in
    record { ok = ok; failed = failed; skipped = skipped + (((total - ok) - failed) - skipped) }

kinds :
    (results : List Polled)
    → count_where is_ok_result results
        + count_where is_failed_result results
        + count_where is_skipped_result results
      ≡ length results
kinds [] = refl
kinds (polled_ok ∷ r) = omega (arith, kinds r)
kinds (polled_failed code ∷ r) = omega (arith, kinds r)
kinds (polled_skipped code ∷ r) = omega (arith, kinds r)

-- The three counts of a run add up to its accounts, if there are no more results than accounts.
pub count_results-total :
    (total : ℕ) (results : List Polled)
    → length results ≤ total
    → let c = count_results total results in c.ok + c.failed + c.skipped ≡ total
unfolding count_results
count_results-total total results enough = omega (arith, kinds results, enough)
