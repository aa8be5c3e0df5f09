-- ===== src/Monitor/Verdicts.antt =====
-- What a verdict may say of an account.
use gptshare.Base.{
  ℕ, ◌≡◌, ◌⊎◌, subst, refl, Bool, true, false, not, ◌&&◌, ◌||◌, Option, none, some, is_some, arith,
  Bool-cases, inl, inr,
}
use mathlib.Core.Option.{some-injective}
use gptshare.Pool.Message.{is_free}
use gptshare.Monitor.Types.{
  Life, Level, DeathType, PauseReason, Account, Status, TypedError, PollResult, Record, is_alive,
  is_dead_banned, is_normal_expiry, is_live, is_unverified,
}
use gptshare.Monitor.Judge.{
  Verdict, unchanged, is_stable_ban_candidate, is_contract_change, is_credential_failure,
  expire_normally, observe, downgrade, suspend, judge_status, ban, reauthorize, retry_at,
  judge_error, judge_evidence, judge, next_due,
}

-- What an account's row shows of its life: the dead are paused, with the time and the kind of death,
-- and a row has a due time exactly as long as it is polled.
pub record Settled (status : Life) (paused : Bool) (dead_at : Option ℕ) (death : Option DeathType)
    (retry : Option ℕ) : Type 0 where
  pub dead_paused : is_alive status ≡ false → paused ≡ true
  pub dead_dated : is_alive status ≡ false → is_some dead_at ≡ true
  pub dead_typed : is_alive status ≡ false → is_some death ≡ true
  pub due : is_some retry ≡ not paused

-- The verdict of one row, as `write_row` stores it.
abbrev pub Written : ℕ → Verdict → Type 0
Written due v = Settled v.status v.paused v.dead_at v.death_type (next_due due v)

-- A verdict that leaves the row alive.
abbrev Lives : ℕ → Verdict → Type 0
Lives due v = (is_alive v.status ≡ true) × (is_some (next_due due v) ≡ not v.paused)

written : (due : ℕ) (v : Verdict) → Lives due v → Written due v
written due v l = record {
  dead_paused = λ d. absurd (ground arith);
  dead_dated = λ d. absurd (ground arith);
  dead_typed = λ d. absurd (ground arith);
  due = l.1;
}

pub expire_normally-Written :
    (due : ℕ) (r : Record) (a : Account) → Written due (expire_normally r a)
unfolding expire_normally unchanged next_due
expire_normally-Written due r a = record {
  dead_paused = λ d. refl;
  dead_dated = λ d. refl;
  dead_typed = λ d. refl;
  due = refl;
}

downgrade-Written : (due now : ℕ) (a : Account) (s : Status) → Written due (downgrade now a s)
unfolding downgrade observe unchanged next_due
downgrade-Written due now a s = record {
  dead_paused = λ d. refl;
  dead_dated = λ d. refl;
  dead_typed = λ d. refl;
  due = refl;
}

ban-Written :
    (due : ℕ) (level : Level) (now : ℕ) (r : Record) (a : Account) → Written due (ban level now r a)
unfolding ban unchanged next_due
ban-Written due level now r a = record {
  dead_paused = λ d. refl;
  dead_dated = λ d. refl;
  dead_typed = λ d. refl;
  due = refl;
}

module _ (due now signature : ℕ) (a : Account) (living : is_alive a.status ≡ true) where
  suspend-Written :
      (level : Level) (reason : PauseReason) → Written due (suspend level reason signature now a)
  unfolding suspend unchanged next_due
  suspend-Written level reason = written due (suspend level reason signature now a) (living, refl)

  reauthorize-Written : (level : Level) → Written due (reauthorize level a)
  unfolding reauthorize unchanged next_due
  reauthorize-Written level = written due (reauthorize level a) (living, refl)

  retry_at-Written : (t : ℕ) (level : Level) → Written due (retry_at t level a)
  unfolding retry_at unchanged next_due
  retry_at-Written t level = written due (retry_at t level a) (living, refl)

  observe-Written : (s : Status) → Written due (observe a s)
  unfolding observe unchanged next_due
  observe-Written s = written due (observe a s) (ground (arith, living), ground (arith, living))

  judge_status-Written : (s : Status) → Written due (judge_status now signature a s)
  unfolding judge_status
  judge_status-Written s = elim (Bool-cases (is_live s.level)) [
    | inr l ↦ rw l (suspend-Written _ PauseReason.unverified_active_result)
    | inl l ↦ elim (Bool-cases (is_free s.plan && not (is_dead_banned a.status))) [
      | inl f ↦ rw (l, f) (downgrade-Written due now a s)
      | inr f ↦ rw (l, f) (observe-Written s)
    ]
  ]

  judge_error-Written :
      (min_interval : ℕ) (registry : Level) (r : Record) (t : TypedError)
      → Written due (judge_error min_interval now signature registry r a t)
  unfolding judge_error
  judge_error-Written min_interval registry r t = elim (Bool-cases (is_stable_ban_candidate t)) [
    | inl c ↦ elim (Bool-cases (is_unverified registry)) [
      | inl u ↦ rw (c, u) (suspend-Written t.level PauseReason.evidence_signature_rejected)
      | inr u ↦ rw (c, u) (ban-Written due t.level now r a)
    ]
    | inr c ↦ elim (Bool-cases (is_unverified t.level || is_contract_change t.kind)) [
      | inl u ↦ rw (c, u) (suspend-Written t.level PauseReason.on_contract_changed)
      | inr u ↦ elim (Bool-cases (is_credential_failure t)) [
        | inl f ↦ rw (c, u, f) (reauthorize-Written t.level)
        | inr f ↦ rw (c, u, f) (retry_at-Written _ t.level)
      ]
    ]
  ]

  -- A verdict on a row that is alive.
  pub judge-Written :
      (min_interval : ℕ) (registry : Level) (r : Record) (p : PollResult) (v : Verdict)
      → judge min_interval now signature registry r a p ≡ some v
      → Written due v
  unfolding judge judge_evidence
  judge-Written min_interval registry r p v h =
      elim (Bool-cases (is_some p.status && is_normal_expiry p.code)) [
        | inl e ↦
            subst (Written due) (some-injective _ v (rw e at h)) (expire_normally-Written due r a)
        | inr e ↦ evidence p.typed p.status (rw e at h)
      ]
    where
      evidence :
          (t : Option TypedError) (s : Option Status)
          → judge_evidence min_interval now signature registry r a t s ≡ some v
          → Written due v
      evidence (some t) s i =
          subst (Written due) (some-injective _ v i) (judge_error-Written min_interval registry r t)
      evidence none (some s) i = subst (Written due) (some-injective _ v i) (judge_status-Written s)
      evidence none none i = cc

-- If a failed poll is no stable candidate for a ban, or the evidence is registered as unverified,
-- then the verdict keeps the account's status, plan, expiry and time of death and closes no epoch.
pub judge_error-preserves :
    (min_interval now signature : ℕ) (registry : Level) (r : Record) (a : Account) (t : TypedError)
    → (is_stable_ban_candidate t ≡ false) ⊎ (is_unverified registry ≡ true)
    → let v = judge_error min_interval now signature registry r a t in
      (v.status ≡ a.status)
      × (v.plan ≡ a.plan)
      × (v.expiry ≡ a.current_expiry)
      × (v.dead_at ≡ a.dead_at)
      × (v.closes ≡ none)
unfolding judge_error suspend reauthorize retry_at unchanged
judge_error-preserves min_interval now signature registry r a t h = ground (arith, h)
