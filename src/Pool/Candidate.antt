-- ===== src/Pool/Candidate.antt =====
-- The choice of an account for a card: selectCardCandidate of card_actions.go.
pub mod Choice
pub mod Fits
pub mod Chosen
pub mod Other
use gptshare.Base.{
  ℕ, zero, suc, ◌+◌, ◌-◌, Bool, true, false, not, ◌&&◌, ◌||◌, Option, none, some, List, [], ◌∷◌,
  leb, ltb, ◌==◌, if◌then◌else◌, is_some, is_none, is_id, sql_eq, where_rows, exists_where,
  find_where,
}
use gptshare.Time.{julianday, text_key}
use gptshare.Pool.Types.{MonitorStatus, Account, Card, Allocation, Db}
use gptshare.Pool.Tables.{
  allocatable, is_redeemed, is_primary, is_grace, is_dead_normal, after, some_after,
}

abbrev pub find_account : ℕ → List Account → Option Account
find_account k = find_where (λ a. a.id == k)

abbrev pub find_card : ℕ → List Card → Option Card
find_card k = find_where (λ c. c.id == k)

abbrev group_of : Option Card → Option ℕ
group_of none = none
group_of (some c) = c.group_id

abbrev has_username : ℕ → Option Account → Bool
has_username u none = false
has_username u (some a) = a.username == u

-- ?=0 OR the username is not that of the excluded account; a comparison with a missing row's NULL
-- is no match.
unfoldable not_excluded : ℕ → List Account → Account → Bool
not_excluded excluded accts a =
    excluded == 0
    || elim (find_account excluded accts) [ none ↦ false | some x ↦ not (a.username == x.username) ]

-- The allocation `l` of the card `c` keeps the username from the other cards of the group.
abbrev holds : ℕ → Option ℕ → ℕ → Account → List Account → Allocation → Card → Bool
holds now group card_id a accts l c =
    l.card_id == c.id
    && sql_eq c.group_id group
    && not (c.id == card_id)
    && is_redeemed c.status
    && some_after now c.expires_at
    && l.active
    && after now l.valid_until
    && (is_primary l.allocation_state
        || (is_grace l.allocation_state && some_after now l.grace_until))
    && has_username a.username (find_account l.account_id accts)

-- The subquery of NOT EXISTS: another card of the group holds an account of that username.
unfoldable group_conflict : ℕ → ℕ → Db → Account → Bool
group_conflict now card_id db a =
    let group = group_of (find_card card_id db.cards) in
    exists_where (λ l. exists_where (λ c. holds now group card_id a db.accounts l c) db.cards)
      db.allocations

-- The WHERE clause.
unfoldable pub eligible : ℕ → ℕ → ℕ → Db → Account → Bool
unfolding not_excluded group_conflict
eligible now excluded card_id db a =
    allocatable now a
    && not_excluded excluded db.accounts a
    && not (group_conflict now card_id db a)

-- The account of the card's newest allocation.
abbrev pub previous_account : ℕ → Db → Option ℕ
previous_account card_id db = elim (find_where (λ l. l.card_id == card_id) db.allocations) [
  | none ↦ none
  | some l ↦ some l.account_id
]

abbrev pub monitor_rank : MonitorStatus → ℕ
monitor_rank MonitorStatus.alive = 0
monitor_rank MonitorStatus.unknown = 1
monitor_rank MonitorStatus.unknown_monitor = 1
monitor_rank MonitorStatus.dead_normal = 2
monitor_rank _ = 3

abbrev distance : ℕ → ℕ → ℕ
distance x y = (x - y) + (y - x)

abbrev null_key : Option ℕ → ℕ
null_key none = 0
null_key (some t) = 1

abbrev time_key : Option ℕ → ℕ
time_key none = 0
time_key (some t) = text_key t

-- The keys of ORDER BY, the first one first.
unfoldable pub order_keys : Bool → Bool → ℕ → ℕ → Db → Account → List ℕ
order_keys monitor_available prefer_previous expiry card_id db a =
    (if prefer_previous
        && not (is_dead_normal a.monitor_status)
        && is_id (previous_account card_id db) a.id
      then 0
      else 1)
    ∷ (if monitor_available then monitor_rank a.monitor_status else 1)
    ∷ (julianday a.account_expiry - julianday expiry)
    ∷ distance (julianday a.account_expiry) (julianday expiry)
    ∷ a.current_allocations
    ∷ null_key a.last_allocated_at
    ∷ time_key a.last_allocated_at
    ∷ a.id
    ∷ []

-- Lexicographic order.
unfoldable pub lex_leb : List ℕ → List ℕ → Bool
lex_leb [] ys = true
lex_leb (x ∷ xs) [] = false
lex_leb (x ∷ xs) (y ∷ ys) = ltb x y || (x == y && lex_leb xs ys)

keep_first : (Account → List ℕ) → Account → Option Account → Option Account
keep_first keys a none = some a
keep_first keys a (some b) = if lex_leb (keys a) (keys b) then some a else some b

-- ORDER BY keys LIMIT 1, over the rows given.
unfoldable pub first_by : (Account → List ℕ) → List Account → Option Account
unfolding keep_first
first_by keys [] = none
first_by keys (a ∷ accts) = keep_first keys a (first_by keys accts)

unfoldable pub select_card_candidate : ℕ → ℕ → Bool → ℕ → ℕ → Bool → Db → Option Account
unfolding eligible order_keys
select_card_candidate now expiry monitor_available excluded card_id prefer_previous db =
    first_by (order_keys monitor_available prefer_previous expiry card_id db)
      (where_rows (eligible now excluded card_id db) db.accounts)
