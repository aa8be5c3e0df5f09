-- ===== src/Monitor/Rounds/Claims.antt =====
-- The map `active` of the service under rounds and manual refreshes that run at the same time.
use mathlib.Core.List.{Memᴰ}
use gptshare.Base.{
  ℕ, suc, ◌≤◌, ◌<◌, ◌≡◌, refl, sym, ◌≢◌, true, not, List, [], ◌∷◌, ◌==◌, if◌then◌else◌, where_rows,
  All, All-map, All-both, All-member, ap, ◌∙◌, arith, Bool-cases, inl, inr,
}

-- active[k], 0 for the empty text of a key that is missing.
abbrev pub Active : Type 0
Active = ℕ → ℕ

abbrev pub put : ℕ → ℕ → Active → Active
put k run active i = if i == k then run else active i

-- The loop of RunScheduled that claims the accounts that no run holds.
unfoldable pub claim_round : ℕ → List ℕ → Active → Active × List ℕ
claim_round run [] active = (active, [])
claim_round run (k ∷ ks) active =
    let free = active k == 0 in
    let rest = claim_round run ks (if free then put k run active else active) in
    (rest.0, if free then k ∷ rest.1 else rest.1)

-- The loop after executeRun that gives them back.
unfoldable pub release_round : ℕ → List ℕ → Active → Active
release_round run [] active = active
release_round run (k ∷ ks) active =
    release_round run ks (if active k == run then put k 0 active else active)

-- A run that is being executed, with the accounts that it polls.
pub record Running : Type 0 where
  pub run : ℕ
  pub claimed : List ℕ

pub record Rounds : Type 0 where
  pub active : Active
  pub running : List Running
  pub next_run : ℕ

abbrev without : ℕ → List Running → List Running
without run = where_rows (λ r. not (r.run == run))

-- Claims and releases are made under the service's lock, each in one step: the rounds that
-- RunScheduled begins and ends, and the refreshes of RefreshNow.
pub data Turn : Rounds → Rounds → Type 0 where
  begins_round :
      (s : Rounds) (due : List ℕ)
      → Turn s (record {
        active = (claim_round s.next_run due s.active).0;
        running =
            record { run = s.next_run; claimed = (claim_round s.next_run due s.active).1 }
            ∷ s.running;
        next_run = suc s.next_run;
      })
  begins_refresh :
      (s : Rounds) (k : ℕ)
      → s.active k ≡ 0
      → Turn s (record {
        active = put k s.next_run s.active;
        running = record { run = s.next_run; claimed = k ∷ [] } ∷ s.running;
        next_run = suc s.next_run;
      })
  ends_round :
      (s : Rounds) (r : Running)
      → Memᴰ r s.running
      → Turn s (record {
        active = release_round r.run r.claimed s.active;
        running = without r.run s.running;
        next_run = s.next_run;
      })
  ends_refresh :
      (s : Rounds) (k run : ℕ)
      → Memᴰ (record { run = run; claimed = k ∷ [] }) s.running
      → Turn s (record {
        active = put k 0 s.active;
        running = without run s.running;
        next_run = s.next_run;
      })

-- Every run holds the accounts that it polls, and its number was given out before.
pub record Held (s : Rounds) : Type 0 where
  pub held : All (λ r. All (λ k. s.active k ≡ r.run) r.claimed) s.running
  pub given : All (λ r. (0 < r.run) × (r.run < s.next_run)) s.running
  pub fresh : (k : ℕ) → s.active k < s.next_run
  pub started : 0 < s.next_run

put-same : (k run : ℕ) (active : Active) → put k run active k ≡ run
put-same k run active = ground arith

put-other : (k run i : ℕ) (active : Active) → i ≢ k → put k run active i ≡ active i
put-other k run i active h = ground (arith, h)

put-most : (k run i : ℕ) (active : Active) → active i ≤ run → put k run active i ≤ run
put-most k run i active h = ground (arith, h)

-- A round claims for itself what was free, and leaves what is held.
claim_round-facts :
    (run : ℕ) (ks : List ℕ) (active : Active)
    → 0 < run
    → ((k : ℕ) → active k ≢ 0 → (claim_round run ks active).0 k ≡ active k)
      × All (λ k. (claim_round run ks active).0 k ≡ run) (claim_round run ks active).1
      × ((k : ℕ) → active k ≤ run → (claim_round run ks active).0 k ≤ run)
unfolding claim_round
claim_round-facts run [] active pos = (λ k h. refl, tt, λ k h. h)
claim_round-facts run (k ∷ ks) active pos = elim (Bool-cases (active k == 0)) [
  | inl e ↦
      (let (keep, mine, most) = claim_round-facts run ks (put k run active) pos in
        rw e (
          λ i h.
              keep i (λ z. h (sym (put-other k run i active (apart i e h)) ∙ z))
              ∙ put-other k run i active (apart i e h),
          (
            keep k (λ z. absurd (omega (arith, sym (put-same k run active) ∙ z, pos)))
                ∙ put-same k run active,
            mine,
          ),
          λ i h. most i (put-most k run i active h),
        ))
  | inr e ↦
      (let (keep, mine, most) = claim_round-facts run ks active pos in
        rw e (λ i h. keep i h, mine, λ i h. most i h))
]
  where
    apart : (i : ℕ) → (active k == 0) ≡ true → active i ≢ 0 → i ≢ k
    apart i e h same = h (rw same (ground (arith, e)))

release_round-facts :
    (run : ℕ) (ks : List ℕ) (active : Active) (k : ℕ)
    → (active k ≢ run → release_round run ks active k ≡ active k)
      × (release_round run ks active k ≤ active k)
unfolding release_round
release_round-facts run [] active k = (λ h. refl, omega arith)
release_round-facts run (j ∷ ks) active k = elim (Bool-cases (active j == run)) [
  | inr e ↦ rw e (release_round-facts run ks active k)
  | inl e ↦
      (let (keep, most) = release_round-facts run ks (put j 0 active) k in
        rw e (
          λ h.
              keep (λ z. h (sym (put-other j 0 k active (apart e h)) ∙ z))
              ∙ put-other j 0 k active (apart e h),
          omega (arith, most, lower j k),
        ))
]
  where
    apart : (active j == run) ≡ true → active k ≢ run → k ≢ j
    apart e h same = h (rw same (ground (arith, e)))

    lower : (j k : ℕ) → put j 0 active k ≤ active k
    lower j k = ground arith

others :
    (run : ℕ) (P : Running → Type 0) (Q : Running → Type 0) (rs : List Running)
    → ((r : Running) → r.run ≢ run → P r → Q r)
    → All P rs
    → All Q (without run rs)
others run P Q [] h a = tt
others run P Q (r ∷ rs) h a = elim (Bool-cases (r.run == run)) [
  | inl e ↦ rw e (others run P Q rs h a.1)
  | inr e ↦ rw e (h r (λ same. absurd (ground (arith, e, same))) a.0, others run P Q rs h a.1)
]

begin_held :
    (run : ℕ) (old new : Active) (rs : List Running)
    → ((k : ℕ) → old k ≢ 0 → new k ≡ old k)
    → All (λ r. (0 < r.run) × (r.run < run)) rs
    → All (λ r. All (λ k. old k ≡ r.run) r.claimed) rs
    → All (λ r. All (λ k. new k ≡ r.run) r.claimed) rs
begin_held run old new rs keep given held =
    All-both (λ r. (0 < r.run) × (r.run < run)) (λ r. All (λ k. old k ≡ r.run) r.claimed) _
      (λ r g h.
        All-map _ _ (λ k e. keep k (λ z. absurd (omega (arith, g.0, e, z))) ∙ e) r.claimed h)
      rs given held

-- A step keeps this.
pub Turn-Held : {s t : Rounds} → Held s → Turn s t → Held t
Turn-Held h (begins_round s due) =
    let (keep, mine, most) = claim_round-facts s.next_run due s.active h.started in
    record {
      held = (mine, begin_held s.next_run s.active _ s.running keep h.given h.held);
      given = (
        (h.started, omega arith),
        All-map _ _ (λ r g. (g.0, omega (arith, g.1))) s.running h.given,
      );
      fresh = λ k. omega (arith, most k (omega (arith, h.fresh k)));
      started = omega arith;
    }
Turn-Held h (begins_refresh s k free) = record {
  held = (
    (put-same k s.next_run s.active, tt),
    begin_held s.next_run s.active (put k s.next_run s.active) s.running
        (λ i held. put-other k s.next_run i s.active (λ same. held (rw same free))) h.given h.held,
  );
  given =
      ((h.started, omega arith), All-map _ _ (λ r g. (g.0, omega (arith, g.1))) s.running h.given);
  fresh = λ i. omega (arith, put-most k s.next_run i s.active (omega (arith, h.fresh i)));
  started = omega arith;
}
Turn-Held h (ends_round s r m) = record {
  held =
      others r.run (λ q. All (λ k. s.active k ≡ q.run) q.claimed) _ s.running
        (λ q other held.
          All-map (λ k. s.active k ≡ q.run) _
            (λ k e. (release_round-facts r.run r.claimed s.active k).0 (λ z. other (sym e ∙ z)) ∙ e)
            q.claimed held)
        h.held;
  given = others r.run _ _ s.running (λ q other g. g) h.given;
  fresh = λ k. omega (arith, (release_round-facts r.run r.claimed s.active k).1, h.fresh k);
  started = h.started;
}
Turn-Held h (ends_refresh s k run m) =
    let mine : s.active k ≡ run =
      (All-member (λ r. All (λ k. s.active k ≡ r.run) r.claimed) _ s.running h.held m).0 in
    record {
      held =
          others run (λ q. All (λ k. s.active k ≡ q.run) q.claimed) _ s.running
            (λ q other held.
              All-map (λ i. s.active i ≡ q.run) _
                (λ i e.
                  put-other k 0 i s.active (λ same. other (sym e ∙ ap s.active same ∙ mine)) ∙ e)
                q.claimed held)
            h.held;
      given = others run _ _ s.running (λ q other g. g) h.given;
      fresh = λ i. omega (arith, put_zero i, h.fresh i);
      started = h.started;
    }
  where
    put_zero : (i : ℕ) → put k 0 s.active i ≤ s.active i
    put_zero i = ground arith

-- Any number of turns.
pub data Turns (start : Rounds) : Rounds → Type 0 where
  still : Turns start start
  turned : {s t : Rounds} → Turns start s → Turn s t → Turns start t

abbrev pub idle_rounds : Rounds
idle_rounds = record { active = λ k. 0; running = []; next_run = 1 }

Turns-Held : {s : Rounds} → Turns idle_rounds s → Held s
Turns-Held still = record { held = tt; given = tt; fresh = λ k. omega arith; started = omega arith }
Turns-Held (turned before step) = Turn-Held (Turns-Held before) step

-- In every state that the service reaches from its start, two runs that are being executed and poll
-- the same account are the same run.
pub Turns-exclusive :
    {s : Rounds} (r q : Running) (k : ℕ)
    → Turns idle_rounds s
    → Memᴰ r s.running
    → Memᴰ q s.running
    → Memᴰ k r.claimed
    → Memᴰ k q.claimed
    → r.run ≡ q.run
Turns-exclusive {s} r q k before mr mq kr kq =
    let h = Turns-Held before in
    let holds : (r : Running) → Memᴰ r s.running → Memᴰ k r.claimed → s.active k ≡ r.run = λ r m c.
      All-member (λ k. s.active k ≡ r.run) k r.claimed
        (All-member (λ r. All (λ k. s.active k ≡ r.run) r.claimed) r s.running h.held m) c in
    sym (holds r mr kr) ∙ holds q mq kq
