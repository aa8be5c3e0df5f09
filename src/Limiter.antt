-- ===== src/Limiter.antt =====
-- The limits on administrator logins: internal/auth/limiter.go over the table admin_login_attempts.
use gptshare.Base.{
  ℕ, ◌+◌, ◌-◌, ◌≡◌, refl, Bool, true, false, ◌&&◌, ◌||◌, List, ◌∷◌, leb, ltb, ◌==◌, if◌then◌else◌,
  where_rows, count_where, arith, Bool-cases, inl, inr,
}
use gptshare.Time.{day, text_key}

pub data Attempted : Type 0 where
  success failure locked : Attempted

-- A row: the digests of the user and of the client's address, the result, and two RFC 3339 texts.
pub record Attempt : Type 0 where
  pub user : ℕ
  pub ip : ℕ
  pub result : Attempted
  pub attempted_at : ℕ
  pub expires_at : ℕ

abbrev pub limit_window : ℕ
limit_window = 600000000000

abbrev pub is_failure : Attempted → Bool
is_failure Attempted.failure = true
is_failure _ = false

-- result IN ('failure','locked')
abbrev pub counted : Attempted → Bool
counted Attempted.success = false
counted _ = true

-- WHERE attempted_at>=? compares the texts.
abbrev pub in_window : ℕ → Attempt → Bool
in_window now a = leb (text_key (now - limit_window)) (text_key a.attempted_at) && counted a.result

unfoldable pub counts : ℕ → ℕ → ℕ → List Attempt → Bool
counts now user ip rows =
    leb 5 (count_where (λ a. in_window now a && a.user == user) rows)
    || leb 5 (count_where (λ a. in_window now a && a.ip == ip) rows)
    || leb 30 (count_where (in_window now) rows)

-- check: whether the login is limited; the wait is then ten minutes.
unfoldable pub check : (ℕ → ℕ) → (ℕ → ℕ) → ℕ → ℕ → ℕ → List Attempt → Bool
check user_digest ip_digest now username client_ip =
    counts now (user_digest username) (ip_digest client_ip)

abbrev pub kept : ℕ → Attempt → Bool
kept now a = ltb (text_key now) (text_key a.expires_at)

abbrev pub attempt : ℕ → ℕ → ℕ → Attempted → Attempt
attempt now user ip result = record {
  user = user;
  ip = ip;
  result = result;
  attempted_at = now;
  expires_at = now + day;
}

-- record: the old rows go, the attempt is added, and a failure that reaches a limit is marked.
unfoldable pub record_attempt :
    (ℕ → ℕ) → (ℕ → ℕ) → ℕ → ℕ → ℕ → Attempted → List Attempt → List Attempt × Bool
record_attempt user_digest ip_digest now username client_ip result rows =
    let left = where_rows (kept now) rows in
    let row = attempt now (user_digest username) (ip_digest client_ip) in
    let limited = counts now (user_digest username) (ip_digest client_ip) (row result ∷ left) in
    ((if limited && is_failure result then row Attempted.locked else row result) ∷ left, limited)

-- The mark changes no count.
lock_counts :
    (now later user ip u i : ℕ) (result : Attempted) (rows : List Attempt)
    → is_failure result ≡ true
    → counts later u i (attempt now user ip Attempted.locked ∷ rows)
      ≡ counts later u i (attempt now user ip result ∷ rows)
unfolding counts
lock_counts now later user ip u i result rows h = ground (arith, h)

-- The limit that record reports is the one that check reports afterwards for the same user,
-- address and time.
pub check-record_attempt :
    (user_digest ip_digest : ℕ → ℕ) (now username client_ip : ℕ) (result : Attempted)
    (rows : List Attempt)
    → let r = record_attempt user_digest ip_digest now username client_ip result rows in
      check user_digest ip_digest now username client_ip r.0 ≡ r.1
unfolding record_attempt check
check-record_attempt ud id_ now username ip result rows =
    let left = where_rows (kept now) rows in
    let row = attempt now (ud username) (id_ ip) in
    elim (Bool-cases (counts now (ud username) (id_ ip) (row result ∷ left) && is_failure result)) [
      | inl e ↦ rw e (
          lock_counts now now (ud username) (id_ ip) (ud username) (id_ ip) result left
            (second (counts now (ud username) (id_ ip) (row result ∷ left)) (is_failure result) e))
      | inr e ↦ rw e refl
    ]
  where
    second : (a b : Bool) → (a && b) ≡ true → b ≡ true
    second a b h = ground (arith, h)
