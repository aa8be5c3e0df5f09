-- ===== src/Pool/Admin/Sound.antt =====
-- The ledger under the creation and the edit of accounts.
use gptshare.Base.{
  ℕ, ◌≤◌, ◌<◌, ◌≡◌, refl, subst, Bool, true, not, ◌||◌, Option, none, some, ◌==◌, All, All-map,
  All-update, find_where, count_where, arith, Bool-cases, inl, inr, is_some,
}
use gptshare.Pool.Types.{
  Account, Db, MonitorStatus, Result, ok, err, no_rows, unique_violation, invalid_setting,
  keyring_required, account_expiry_too_long, account_archived, guard, >>=-eq-ok, ok-injective,
}
use gptshare.Pool.Tables.{is_available, is_full, credentials_complete}
use gptshare.Pool.Admin.Capacity.{All-true}
use gptshare.Pool.Admin.{
  Setting, Seed, Synced, valid_account_capacity, valid_account_expiry, monitor_taken, seed_account,
  insert_account, chosen_capacity, create_account, incomplete, synced_row, synced_account,
  of_monitor, sync_existing, sync_found, upsert_synced_account,
}
use gptshare.Pool.Admin.Update.{
  Update, live_account, asks_pending, needs_keyring, edited_row, seated_row, updated_row,
  update_account, reported_row, update_account_monitor_status,
}
use gptshare.Pool.Events.Sound.{Fresh, no_seat}
use gptshare.Pool.Books.Defs.{IsSound}
use gptshare.Pool.Books.Retire.{accounts-Books}

-- A new account without seats, of the next id.
insert_account-IsSound :
    (a : Account) (db : Db)
    → a.id ≡ db.next_account
    → a.current_allocations ≡ 0
    → IsSound db
    → Fresh db
    → IsSound (insert_account a db)
insert_account-IsSound a db same empty b f = record {
  distinct = (
    All-map (λ x. x.id < db.next_account) (λ x. x.id ≡ a.id → ⊥)
        (λ x l i. absurd (omega (arith, same, i, l))) db.accounts f.accounts,
    b.distinct,
  );
  owed = (
    rw same (omega (arith, empty, no_seat db.next_account db.allocations f.allocations)),
    b.owed,
  );
  within = (omega (arith, empty), b.within);
  ordered = b.ordered;
  one_primary = b.one_primary;
}

pub create_account-IsSound :
    (keyring : Bool) (setting : Setting) (now : ℕ) (seed : Seed) (db : Db) {r : Db × ℕ}
    → IsSound db
    → Fresh db
    → create_account keyring setting now seed db ≡ ok r
    → IsSound r.0
unfolding create_account
create_account-IsSound keyring setting now seed db b f h =
    let (capacity, c, h1) = >>=-eq-ok (chosen_capacity setting seed.max_concurrent_users) _ h in
    let (u, g, h2) =
      >>=-eq-ok (guard (valid_account_expiry now seed.account_expiry) account_expiry_too_long) _
        h1 in
    let (v, g', h3) = >>=-eq-ok (guard keyring keyring_required) _ h2 in
    let (w, g'', h4) =
      >>=-eq-ok
        (guard (not (monitor_taken db.next_account seed.monitor_account_id db.accounts))
          unique_violation)
        _ h3 in
    subst (λ (q : Db × ℕ). IsSound q.0) (ok-injective h4)
      (insert_account-IsSound (seed_account db.next_account capacity seed) db refl refl b f)

sync_found-IsSound :
    (keyring : Bool) (capacity : ℕ) (seed : Synced) (found : Option Account) (db : Db)
    {r : Db × Bool}
    → IsSound db
    → Fresh db
    → sync_found keyring capacity seed found db ≡ ok r
    → IsSound r.0
unfolding sync_found sync_existing
sync_found-IsSound keyring capacity seed none db b f h =
    let (u, g, h1) = >>=-eq-ok (guard keyring keyring_required) _ h in
    subst (λ (q : Db × Bool). IsSound q.0) (ok-injective h1)
      (insert_account-IsSound (synced_account db.next_account capacity seed) db refl refl b f)
sync_found-IsSound keyring capacity seed (some a) db {r} b f h =
    elim (Bool-cases (is_some a.archived_at)) [
      | inl e ↦
          (let refused : ◌≡◌ {A = Result (Db × Bool)} (err account_archived) (ok r) = rw e at h in
            cc)
      | inr e ↦
          subst (λ (q : Db × Bool). IsSound q.0) (ok-injective (rw e at h))
            (accounts-Books (λ x. x.id == a.id) (synced_row seed) db (λ x. refl) (λ x p o. o)
              (λ x p o w. w) b)
    ]

-- The import of an account from the monitor that succeeds, of a known account or of a new one, keeps
-- the database sound, if the next account's id is in no row.
pub upsert-IsSound :
    (keyring : Bool) (setting : Setting) (now : ℕ) (seed : Synced) (db : Db) {r : Db × Bool}
    → IsSound db
    → Fresh db
    → upsert_synced_account keyring setting now seed db ≡ ok r
    → IsSound r.0
unfolding upsert_synced_account
upsert-IsSound keyring setting now seed db b f h =
    let (u, g, h1) = >>=-eq-ok (guard (not (incomplete now seed)) account_expiry_too_long) _ h in
    let (capacity, c, h2) = >>=-eq-ok (chosen_capacity setting seed.max_concurrent_users) _ h1 in
    let (v, g', h3) = >>=-eq-ok (guard (valid_account_capacity capacity) invalid_setting) _ h2 in
    sync_found-IsSound keyring capacity seed
      (find_where (of_monitor seed.monitor_account_id) db.accounts) db b f h3

pub monitor_status-IsSound :
    (now k : ℕ) (m : Option ℕ) (s : Option MonitorStatus) (db : Db) {r : Db}
    → IsSound db
    → update_account_monitor_status now k m s db ≡ ok r
    → IsSound r
unfolding update_account_monitor_status
monitor_status-IsSound now k m s db b h =
    let (u, g, h1) = >>=-eq-ok (guard (not (monitor_taken k m db.accounts)) unique_violation) _ h in
    let (v, g', h2) =
      >>=-eq-ok (guard (count_where (live_account k) db.accounts == 1) no_rows) _ h1 in
    subst IsSound (ok-injective h2) (
      accounts-Books (live_account k) (reported_row now m s) db (λ x. refl) (λ x p o. o)
        (λ x p o w. w) b)

-- What an edit leaves in the account: it is offered for allocation only with its credentials and a
-- seat left, and full only with its credentials and no seat left.
abbrev pub Offered : ℕ → Account → Type 0
Offered k a =
    live_account k a ≡ true
    → (is_available a.status ≡ true
        → (credentials_complete a ≡ true) × (a.current_allocations < a.max_concurrent_users))
      × (is_full a.status ≡ true
          → (credentials_complete a ≡ true) × (a.max_concurrent_users ≤ a.current_allocations))

seated_row-Offered : (k : ℕ) (a : Account) → Offered k (seated_row a)
seated_row-Offered k a live = (λ h. ground (arith, h), λ h. ground (arith, h))

-- An edit of an account that succeeds, whatever it asks for, leaves the account available only with
-- complete credentials and a seat left, and full only with complete credentials and no seat left.
pub update_account-Offered :
    (keyring : Bool) (now k : ℕ) (u : Update) (db : Db) {r : Db}
    → update_account keyring now k u db ≡ ok r
    → All (Offered k) r.accounts
unfolding update_account
update_account-Offered keyring now k u db h =
    let (x1, g1, h1) =
      >>=-eq-ok
        (guard (valid_account_expiry now u.account_expiry || asks_pending u.status)
          account_expiry_too_long)
        _ h in
    let (x2, g2, h2) =
      >>=-eq-ok (guard (not (monitor_taken k u.monitor_account_id db.accounts)) unique_violation) _
        h1 in
    let (x3, g3, h3) =
      >>=-eq-ok (guard (count_where (live_account k) db.accounts == 1) no_rows) _ h2 in
    let (x4, g4, h4) = >>=-eq-ok (guard (keyring || not (needs_keyring u)) keyring_required) _ h3 in
    subst (λ (q : Db). All (Offered k) q.accounts) (ok-injective h4)
      (All-update (live_account k) (updated_row u) (λ a. Unit {0}) (Offered k)
        (λ a e x. seated_row-Offered k (edited_row u a))
        (λ a e x live. absurd (ground (arith, e, live))) db.accounts (All-true db.accounts))
