-- ===== src/Pool/Retire.antt =====
-- Accounts that go out of service: offlineAccountCandidates, archiveRetiredAccount and
-- retireOfflineAccounts.
use gptshare.Base.{
  ℕ, Bool, true, false, not, ◌&&◌, some, List, [], ◌∷◌, ◌++◌, map, ◌==◌, if◌then◌else◌, where_rows,
  update_where, count_where, exists_where, is_none,
}
use gptshare.Pool.Types.{Account, AccountStatus, Audit, Db}
use gptshare.Pool.Tables.{banned_account, expired_account}

-- RetireReasonBanned, RetireReasonExpired
pub data RetireReason : Type 0 where
  banned expired : RetireReason

abbrev pub has_active : ℕ → Db → Bool
has_active k db = exists_where (λ l. l.account_id == k && l.active) db.allocations

-- The clause of the sweep for a reason; the expiry sweep leaves banned accounts out.
abbrev pub sweep_clause : RetireReason → ℕ → Account → Bool
sweep_clause RetireReason.banned now a = banned_account a
sweep_clause RetireReason.expired now a = expired_account now a && not (banned_account a)

-- The clause that the archiving statement tests again.
abbrev pub archive_clause : RetireReason → ℕ → Account → Bool
archive_clause RetireReason.banned now a = banned_account a
archive_clause RetireReason.expired now a = expired_account now a

unfoldable pub offline_account_candidates : RetireReason → ℕ → Db → List ℕ
offline_account_candidates reason now db =
    map (λ a. a.id)
      (where_rows
        (λ a. is_none a.archived_at && sweep_clause reason now a && not (has_active a.id db))
        db.accounts)

abbrev pub retirable : RetireReason → ℕ → ℕ → Db → Account → Bool
retirable reason now k db a =
    archive_clause reason now a && a.id == k && is_none a.archived_at && not (has_active k db)

abbrev pub archive_row : ℕ → Account → Account
archive_row now a = record a {
  archived_at = some now;
  status = AccountStatus.disabled;
  current_allocations = 0;
  has_password = false;
  has_totp = false;
  has_pickup = false;
}

unfoldable pub archive_retired_account : RetireReason → ℕ → ℕ → Db → Db × Bool
archive_retired_account reason now k db =
    let archived = update_where (retirable reason now k db) (archive_row now) db.accounts in
    if count_where (retirable reason now k db) db.accounts == 1
    then (record db { accounts = archived; audits = Audit.account_retired k ∷ db.audits }, true)
    else (record db { accounts = archived }, false)

unfoldable pub archive_all : RetireReason → ℕ → List ℕ → Db → Db × List (ℕ × RetireReason)
archive_all reason now [] db = (db, [])
archive_all reason now (k ∷ ks) db =
    let (next, done) = archive_retired_account reason now k db in
    let (last, rest) = archive_all reason now ks next in
    (last, if done then (k, reason) ∷ rest else rest)

unfoldable pub retire_offline_accounts : ℕ → Db → Db × List (ℕ × RetireReason)
retire_offline_accounts now db =
    let (first, retired_banned) =
      archive_all RetireReason.banned now (offline_account_candidates RetireReason.banned now db)
        db in
    let (second, retired_expired) =
      archive_all RetireReason.expired now
        (offline_account_candidates RetireReason.expired now first) first in
    (second, retired_banned ++ retired_expired)
