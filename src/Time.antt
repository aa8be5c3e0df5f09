-- ===== src/Time.antt =====
-- Instants of both services: nanoseconds since the epoch (Go's time.Time in UTC), and the three ways
-- in which SQL statements compare the RFC 3339 texts that formatTime writes into the tables.
pub mod Order
use gptshare.Base.{ℕ, zero, suc, ◌+◌, ◌*◌, ◌/◌, ◌%◌, ◌^◌, ◌==◌, if◌then◌else◌}

abbrev pub seconds : ℕ → ℕ
seconds n = n * 1000000000

abbrev pub day : ℕ
day = 86400000000000

-- time.Time.Unix
unfoldable pub unix : ℕ → ℕ
unix t = t / 1000000000

-- SQLite's datetime(t): the text `YYYY-MM-DD HH:MM:SS`, which orders as the whole seconds do.
unfoldable pub datetime : ℕ → ℕ
datetime t = t / 1000000000

-- SQLite's julianday(t), which keeps milliseconds.
unfoldable pub julianday : ℕ → ℕ
julianday t = t / 1000000

-- The fraction's part of `text_key`: `n` digits are left, of the value `f`. The text ends in `Z`,
-- which sorts above every digit, as soon as the digits left are zeros.
unfoldable fraction_key : ℕ → ℕ → ℕ
fraction_key zero f = 10
fraction_key (suc n) f =
    let rest = fraction_key n (f % 10 ^ n) in
    if f == 0 then 10 * 11 ^ suc n else (f / 10 ^ n) * 11 ^ suc n + rest

-- The order of the texts themselves, which some statements compare without datetime(): seconds, and
-- then `Z` (above `.`) or the fraction's digits without trailing zeros and a `Z`.
unfoldable pub text_key : ℕ → ℕ
unfolding fraction_key
text_key t =
    let f = t % 1000000000 in
    (t / 1000000000) * 11 ^ 11 + (if f == 0 then 10 * 11 ^ 10 else fraction_key 9 f)
