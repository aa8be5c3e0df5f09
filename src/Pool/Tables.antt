-- ===== src/Pool/Tables.antt =====
-- Tests on rows that the statements of repository.go share, and what they count.
use gptshare.Base.{
  ℕ, suc, ◌+◌, ◌-◌, Bool, true, false, not, ◌&&◌, ◌||◌, Option, none, some, List, [], ◌∷◌, leb, ltb,
  ◌==◌, if◌then◌else◌, is_none, update_where, count_where,
}
use gptshare.Time.{datetime}
use gptshare.Pool.Types.{
  MonitorStatus, AccountStatus, CardStatus, AllocationState, Account, Allocation,
}

abbrev pub is_available : AccountStatus → Bool
is_available AccountStatus.available = true
is_available _ = false

abbrev pub is_full : AccountStatus → Bool
is_full AccountStatus.full = true
is_full _ = false

abbrev pub is_expired : AccountStatus → Bool
is_expired AccountStatus.expired = true
is_expired _ = false

abbrev pub is_banned : AccountStatus → Bool
is_banned AccountStatus.banned = true
is_banned _ = false

abbrev pub is_disabled : AccountStatus → Bool
is_disabled AccountStatus.disabled = true
is_disabled _ = false

abbrev pub is_dead_banned : MonitorStatus → Bool
is_dead_banned MonitorStatus.dead_banned = true
is_dead_banned _ = false

abbrev pub is_dead_normal : MonitorStatus → Bool
is_dead_normal MonitorStatus.dead_normal = true
is_dead_normal _ = false

abbrev pub is_unused : CardStatus → Bool
is_unused CardStatus.unused = true
is_unused _ = false

abbrev pub is_redeemed : CardStatus → Bool
is_redeemed CardStatus.redeemed = true
is_redeemed _ = false

abbrev pub is_primary : AllocationState → Bool
is_primary AllocationState.primary = true
is_primary _ = false

abbrev pub is_grace : AllocationState → Bool
is_grace AllocationState.grace = true
is_grace _ = false

abbrev pub is_replaced : AllocationState → Bool
is_replaced AllocationState.replaced = true
is_replaced _ = false

-- datetime(t) > datetime(now), and datetime(t) <= datetime(now) of a nullable column.
abbrev pub after : ℕ → ℕ → Bool
after now t = ltb (datetime now) (datetime t)

abbrev pub some_after : ℕ → Option ℕ → Bool
some_after now none = false
some_after now (some t) = after now t

abbrev pub some_due : ℕ → Option ℕ → Bool
some_due now none = false
some_due now (some t) = leb (datetime t) (datetime now)

-- allocatableAccountClause
unfoldable pub allocatable : ℕ → Account → Bool
allocatable now a =
    after now a.account_expiry
    && is_none a.archived_at
    && is_available a.status
    && ltb a.current_allocations a.max_concurrent_users
    && not (is_dead_banned a.monitor_status)

-- bannedAccountClause
unfoldable pub banned_account : Account → Bool
banned_account a = is_dead_banned a.monitor_status || is_banned a.status

-- expiredAccountClause
unfoldable pub expired_account : ℕ → Account → Bool
expired_account now a =
    is_dead_normal a.monitor_status
    || is_expired a.status
    || leb (datetime a.account_expiry) (datetime now)

-- active=1 AND allocation_state IN ('primary','grace')
unfoldable pub occupies : Allocation → Bool
occupies l = l.active && (is_primary l.allocation_state || is_grace l.allocation_state)

abbrev pub seat_of : ℕ → Allocation → Bool
seat_of k l = l.account_id == k && occupies l

-- activeAllocationCountExpr
unfoldable pub occupancy : ℕ → List Allocation → ℕ
occupancy k = count_where (seat_of k)

-- account_id,count(*) ... GROUP BY account_id, collected in a map.
unfoldable pub add_count : ℕ → List (ℕ × ℕ) → List (ℕ × ℕ)
add_count k [] = (k, 1) ∷ []
add_count k ((j, n) ∷ r) = if j == k then (j, suc n) ∷ r else (j, n) ∷ add_count k r

unfoldable pub group_by_account : List Allocation → List (ℕ × ℕ)
unfolding add_count
group_by_account [] = []
group_by_account (l ∷ ls) = add_count l.account_id (group_by_account ls)

abbrev pub has_id : ℕ → Account → Bool
has_id k a = a.id == k

abbrev pub free_seats : ℕ → Account → Account
free_seats count a = record a {
  current_allocations = a.current_allocations - count;
  status = if is_full a.status then AccountStatus.available else a.status;
}

-- length(display_password_secret)>0 AND (length(display_2fa_secret)>0 OR ...)
abbrev pub credentials_complete : Account → Bool
credentials_complete a = a.has_password && (a.has_totp || a.has_pickup)

-- releaseAccountCapacity
unfoldable pub release_account_capacity : ℕ → ℕ → List Account → List Account
release_account_capacity k count = update_where (has_id k) (free_seats count)

-- The loop that releases the capacity of each account of the map.
unfoldable pub release_all : List (ℕ × ℕ) → List Account → List Account
release_all [] accts = accts
release_all ((k, n) ∷ r) accts = release_all r (release_account_capacity k n accts)

-- The statement of reserveAccountCapacity: which rows it updates, and to what.
abbrev pub can_reserve : ℕ → ℕ → Account → Bool
can_reserve k now a =
    a.id == k
    && is_none a.archived_at
    && ltb a.current_allocations a.max_concurrent_users
    && after now a.account_expiry

abbrev pub take_seat : ℕ → Account → Account
take_seat now a = record a {
  current_allocations = a.current_allocations + 1;
  last_allocated_at = some now;
  status =
      if leb a.max_concurrent_users (a.current_allocations + 1)
      then AccountStatus.full
      else a.status;
}
