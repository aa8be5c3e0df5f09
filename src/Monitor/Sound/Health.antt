-- ===== src/Monitor/Sound/Health.antt =====
-- The invariant of the monitor's accounts.
use gptshare.Base.{
  ℕ, ◌+◌, ◌≡◌, refl, ◌⊎◌, subst, Bool, true, false, not, ◌&&◌, ◌||◌, Option, none, some, List,
  is_some, All, All-update, update_where, find_where, Bool-cases, Option-cases, inl, inr, arith,
}
use mathlib.Core.Option.{some-injective}
use gptshare.Pool.Message.{EventType}
use gptshare.Monitor.Types.{
  Code, Level, Account, Store, PollResult, Record, is_alive, is_dead_normal, is_dead_banned,
  is_normal_expiry,
}
use gptshare.Monitor.Judge.{Verdict, judge, fill_only_email}
use gptshare.Monitor.Verdicts.{Written, judge-Written, expire_normally-Written}
use gptshare.Monitor.Store.{
  Config, has_id, live_id, write_row, fill_row, fill_email, bump_version, enqueue_account,
  announce_expiry, announce_ban, write_verdict, conclude, is_outdated, apply_to, apply_result,
}
use gptshare.Monitor.Sound.{find_where-All}

-- A dead account is paused and shows when and how it died, and a paused one has no due time.
pub record Healthy (a : Account) : Type 0 where
  pub dead_paused : is_alive a.status ≡ false → a.polling_paused ≡ true
  pub dead_dated : is_alive a.status ≡ false → is_some a.dead_at ≡ true
  pub dead_typed : is_alive a.status ≡ false → is_some a.death_type ≡ true
  pub quiet : a.polling_paused ≡ true → is_some a.next_retry_at ≡ false

abbrev AllHealthy : Store → Type 0
AllHealthy s = All Healthy s.accounts

Written-Healthy :
    (now due : ℕ) (code : Code) (v : Verdict) (a : Account)
    → Written due v
    → Healthy (write_row now due code v a)
Written-Healthy now due code v a w = record {
  dead_paused = w.dead_paused;
  dead_dated = w.dead_dated;
  dead_typed = w.dead_typed;
  quiet = λ p. ground (arith, w.due, p);
}

fill-Healthy :
    (k : ℕ) (fills : Option ℕ × Option ℕ) (rows : List Account)
    → All Healthy rows
    → All Healthy (fill_email k fills rows)
unfolding fill_email
fill-Healthy k fills rows h = elim (Bool-cases (is_some fills.0 || is_some fills.1)) [
  | inl e ↦ rw e (
      All-update (live_id k) (fill_row k fills) Healthy Healthy
        (λ a i g. record {
          dead_paused = g.dead_paused;
          dead_dated = g.dead_dated;
          dead_typed = g.dead_typed;
          quiet = g.quiet;
        })
        (λ a i g. g) rows h)
  | inr e ↦ rw e h
]

enqueue-Healthy :
    (type : EventType) (now k : ℕ) (s t : Store)
    → AllHealthy s
    → enqueue_account type now k s ≡ some t
    → AllHealthy t
unfolding enqueue_account
enqueue-Healthy type now k s t h e =
    let rows = update_where (live_id k) bump_version s.accounts in
    let good : All Healthy rows =
      All-update (live_id k) bump_version Healthy Healthy
        (λ a i g. record {
          dead_paused = g.dead_paused;
          dead_dated = g.dead_dated;
          dead_typed = g.dead_typed;
          quiet = g.quiet;
        })
        (λ a i g. g) s.accounts h in
    elim (Option-cases (find_where (live_id k) rows)) [
      | inl n ↦ absurd (ground (arith, n, e))
      | inr (a, n) ↦ subst AllHealthy (some-injective _ t (rw (n, enqueue_account) at e)) good
    ]

announce_expiry-Healthy :
    (now k : ℕ) (a : Account) (v : Verdict) (s t : Store)
    → AllHealthy s
    → announce_expiry now k a v s ≡ some t
    → AllHealthy t
unfolding announce_expiry
announce_expiry-Healthy now k a v s t h e =
    elim (Bool-cases (not (is_dead_normal a.status) && is_dead_normal v.status)) [
      | inl d ↦ enqueue-Healthy EventType.updated now k s t h (rw d at e)
      | inr d ↦ subst AllHealthy (some-injective s t (rw d at e)) h
    ]

announce_ban-Healthy :
    (now : ℕ) (r : Record) (a : Account) (v : Verdict) (s t : Store)
    → AllHealthy s
    → announce_ban now r a v s ≡ some t
    → AllHealthy t
unfolding announce_ban
announce_ban-Healthy now r a v s t h e =
    elim (Bool-cases (not (is_dead_banned a.status) && is_dead_banned v.status)) [
      | inl d ↦ enqueue-Healthy EventType.dead_banned now r.id _ t h (rw d at e)
      | inr d ↦ subst AllHealthy (some-injective s t (rw d at e)) h
    ]

module _ (cfg : Config) (now interval : ℕ) (r : Record) (p : PollResult) where
  abbrev due : ℕ
  due = now + (interval + cfg.jitter r.id interval)

  conclude-Healthy :
      (a : Account) (o : Option Verdict) (s t : Store) (flag : Bool)
      → ((v : Verdict) → o ≡ some v → Written due v)
      → AllHealthy s
      → conclude cfg now interval r p a o s ≡ some (t, flag)
      → AllHealthy t
  unfolding conclude write_verdict
  conclude-Healthy a none s t flag w h e = cc
  conclude-Healthy a (some v) s t flag w h e =
      let wrote = write_verdict cfg now interval r p a v s in
      let good : AllHealthy wrote = fill-Healthy r.id (fill_only_email a r p) _ (
        All-update (has_id r.id) (write_row now due p.code v) Healthy Healthy
          (λ b i g. Written-Healthy now due p.code v b (w v refl)) (λ b i g. g) s.accounts h) in
      elim (Option-cases (announce_expiry now r.id a v wrote)) [
        | inl n ↦ absurd (ground (arith, n, e))
        | inr (x, n) ↦
            (let told = announce_expiry-Healthy now r.id a v wrote x good n in
              elim (Option-cases (announce_ban now r a v x)) [
                | inl m ↦ absurd (ground (arith, n, m, e))
                | inr (y, m) ↦
                    subst (λ (q : Store × Bool). AllHealthy q.0)
                      (some-injective (y, true) (t, flag) (rw (n, m, conclude) at e))
                      (announce_ban-Healthy now r a v x y told m)
              ])
      ]

  judged :
      (a : Account) (signature : ℕ) (registry : Level) (v : Verdict)
      → (is_normal_expiry p.code ≡ true → is_some p.status ≡ true)
      → Healthy a
      → is_outdated a p ≡ false
      → judge cfg.min_interval now signature registry r a p ≡ some v
      → Written due v
  unfolding judge
  judged a signature registry v sane g fresh e = elim (Bool-cases (is_normal_expiry p.code)) [
    | inl n ↦
        subst (Written due) (some-injective _ v (rw (n, sane n) at e))
          (expire_normally-Written due r a)
    | inr n ↦
        judge-Written due now signature a (living (Bool-cases (is_alive a.status)) n)
          cfg.min_interval registry r p v e
  ]
    where
      living :
          (is_alive a.status ≡ true) ⊎ (is_alive a.status ≡ false)
          → is_normal_expiry p.code ≡ false
          → is_alive a.status ≡ true
      living (inl l) n = l
      living (inr l) n = absurd (ground (arith, g.dead_paused l, fresh, n))

  -- Applying the result of a poll, in which the code of a normal expiry comes with a status, keeps every
  -- account healthy.
  pub apply-Healthy :
      (s t : Store) (flag : Bool)
      → (is_normal_expiry p.code ≡ true → is_some p.status ≡ true)
      → AllHealthy s
      → apply_result cfg now interval r p s ≡ some (t, flag)
      → AllHealthy t
  unfolding apply_result apply_to
  apply-Healthy s t flag sane h e = elim (Bool-cases p.skipped) [
    | inl k ↦
        subst (λ (q : Store × Bool). AllHealthy q.0)
          (some-injective (s, false) (t, flag) (rw k at e)) h
    | inr k ↦ elim (Option-cases (find_where (live_id r.id) s.accounts)) [
      | inl n ↦ absurd (ground (arith, k, n, e))
      | inr (a, n) ↦ elim (Bool-cases (is_outdated a p)) [
        | inl o ↦
            subst (λ (q : Store × Bool). AllHealthy q.0)
              (some-injective (s, false) (t, flag) (rw (k, n, o, apply_result, apply_to) at e)) h
        | inr o ↦
            conclude-Healthy a _ s t flag
              (λ v j.
                judged a _ _ v sane (find_where-All (live_id r.id) Healthy s.accounts a h n) o j)
              h (rw (k, n, o, apply_result, apply_to) at e)
      ]
    ]
  ]
