-- ===== src/Pool/Query.antt =====
-- Public queries: VerifyCaptcha, CreateCaptcha, QueryFailures, RecordQueryFailure and ResetQueryFailures of
-- repository.go, and PurgeExpiredBindNonces of user_center.go. `answer_hash` and `challenge_hash` stand
-- for the hashes of captchaAnswerHash and captchaChallengeHash, of SHA-256.
use mathlib.Core.Option.{some-injective}
use gptshare.Base.{
  ℕ, ◌+◌, ◌≡◌, refl, ap, sym, Bool, true, not, ◌&&◌, ◌||◌, Option, none, some, List, [], ◌∷◌, ltb,
  ◌==◌, if◌then◌else◌, is_some, is_none, where_rows, update_where, count_where, find_where,
  Bool-cases, inl, inr, arith,
}
use gptshare.Time.{seconds, text_key}
use gptshare.Pool.Types.{Db}

-- Rows of captcha_challenges.
pub record Challenge : Type 0 where
  pub id : ℕ
  pub answer_hash : ℕ
  pub expires_at : ℕ
  pub verified_at : Option ℕ

abbrev pub is_challenge : ℕ → Challenge → Bool
is_challenge id c = c.id == id

abbrev pub verified_row : ℕ → Challenge → Challenge
verified_row now c = record c { verified_at = some now }

abbrev pub unverified : ℕ → Challenge → Bool
unverified id c = c.id == id && is_none c.verified_at

-- A challenge lasts two minutes; the new row's id comes from the table.
unfoldable pub create_captcha : ℕ → ℕ → ℕ → List Challenge → List Challenge
create_captcha id hash now rows =
    record { id = id; answer_hash = hash; expires_at = now + seconds 120; verified_at = none }
    ∷ rows

-- VerifyCaptcha after its SELECT; none is ErrCaptchaInvalid.
unfoldable pub verify_found :
    ℕ → ℕ → ℕ → List Challenge → Option Challenge → Option (List Challenge)
verify_found expected id now rows none = none
verify_found expected id now rows (some c) =
    if not (ltb now c.expires_at) || is_some c.verified_at
    then none
    else if c.answer_hash == expected
    then some (update_where (unverified id) (verified_row now) rows)
    else none

unfoldable pub verify_captcha :
    (ℕ → ℕ → ℕ) → ℕ → ℕ → ℕ → ℕ → List Challenge → Option (List Challenge)
verify_captcha hash subject id answer now rows =
    verify_found (hash subject answer) id now rows (find_where (is_challenge id) rows)

-- Rows of rate_limit_events of the scope user_query_failure.
pub record QueryFailure : Type 0 where
  pub subject : ℕ
  pub expires_at : ℕ

unfoldable pub query_failures : ℕ → ℕ → List QueryFailure → ℕ
query_failures subject now =
    count_where (λ f. f.subject == subject && ltb (text_key now) (text_key f.expires_at))

unfoldable pub record_query_failure : ℕ → ℕ → List QueryFailure → List QueryFailure
record_query_failure subject now rows =
    record { subject = subject; expires_at = now + seconds 900 } ∷ rows

unfoldable pub reset_query_failures : ℕ → List QueryFailure → List QueryFailure
reset_query_failures subject = where_rows (λ f. not (f.subject == subject))

-- After a reset no failure of the subject counts at any time, and those of every other subject
-- count as before.
pub reset-query_failures :
    (subject other now : ℕ) (rows : List QueryFailure)
    → query_failures other now (reset_query_failures subject rows)
      ≡ (if other == subject then 0 else query_failures other now rows)
unfolding reset_query_failures query_failures
reset-query_failures subject other now [] = ground arith
reset-query_failures subject other now (f ∷ rows) =
    let rest = reset-query_failures subject other now rows in
    elim (Bool-cases (f.subject == subject)) [
      | inl e ↦ rw e (ground (arith, e, rest))
      | inr e ↦ rw e (ground (arith, e, rest))
    ]

found-row :
    (expected id now : ℕ) (rows : List Challenge) (o : Option Challenge) {after : List Challenge}
    → verify_found expected id now rows o ≡ some after
    → (c : Challenge) × (o ≡ some c)
      × (is_none c.verified_at ≡ true)
      × (after ≡ update_where (unverified id) (verified_row now) rows)
unfolding verify_found
found-row expected id now rows none h = cc
found-row expected id now rows (some c) h =
    elim (Bool-cases (not (ltb now c.expires_at) || is_some c.verified_at)) [
      | inl e ↦ absurd (ground (arith, e, h))
      | inr e ↦ elim (Bool-cases (c.answer_hash == expected)) [
        | inr x ↦ absurd (ground (arith, e, x, h))
        | inl x ↦ (c, refl, ground (arith, e), sym (some-injective _ _ (rw (e, x) at h)))
      ]
    ]

refused_row :
    (expected id now : ℕ) (rows : List Challenge) (c : Challenge)
    → is_some c.verified_at ≡ true
    → verify_found expected id now rows (some c) ≡ none
unfolding verify_found
refused_row expected id now rows c h = ground (arith, h)

marked :
    (id now : ℕ) (c : Challenge) (rows : List Challenge)
    → find_where (is_challenge id) rows ≡ some c
    → is_none c.verified_at ≡ true
    → find_where (is_challenge id) (update_where (unverified id) (verified_row now) rows)
      ≡ some (verified_row now c)
marked id now c [] h u = cc
marked id now c (x ∷ rows) h u = elim (Bool-cases (x.id == id)) [
  | inl e ↦
      (let same : x ≡ c = some-injective x c (rw e at h) in
        let open_ : is_none x.verified_at ≡ true = rw same u in
        rw (e, open_, e) (ap (λ y. some (verified_row now y)) same))
  | inr e ↦ rw (e, e) (marked id now c rows (rw e at h) u)
]

-- A challenge that was answered once is refused from then on, whoever answers what, at any time.
pub verify_captcha_once :
    (hash : ℕ → ℕ → ℕ) (subject other id answer guess now later : ℕ) (rows : List Challenge)
    {after : List Challenge}
    → verify_captcha hash subject id answer now rows ≡ some after
    → verify_captcha hash other id guess later after ≡ none
unfolding verify_captcha
verify_captcha_once hash subject other id answer guess now later rows h =
    let (c, found, open_, same) =
      found-row (hash subject answer) id now rows (find_where (is_challenge id) rows) h in
    rw (same, marked id now c rows found open_)
      (refused_row (hash other guess) id later _ (verified_row now c) refl)

-- PurgeExpiredBindNonces
unfoldable pub purge_expired_bind_nonces : ℕ → Db → Db × ℕ
purge_expired_bind_nonces cutoff db = (
  record db { nonces = where_rows (λ n. not (ltb n.1 cutoff)) db.nonces },
  count_where (λ n. ltb n.1 cutoff) db.nonces,
)
