-- ===== src/Monitor/Sound.antt =====
-- What an applied result leaves in the monitor's tables: internal/monitor/repository.go.
pub mod Health
pub mod Outbox
pub mod Announce
use gptshare.Base.{
  ℕ, ◌≡◌, refl, subst, Bool, true, false, not, ◌&&◌, ◌||◌, Option, none, some, List, [], ◌∷◌, ◌==◌,
  if◌then◌else◌, is_some, All, update_where, find_where, Bool-cases, inl, inr, arith,
}
use mathlib.Core.Option.{some-injective}

-- The row that a query finds.
module _ {ℓ} {A : Type ℓ} (p : A → Bool) where
  pub find_where-holds : (xs : List A) (x : A) → find_where p xs ≡ some x → p x ≡ true
  find_where-holds [] x h = cc
  find_where-holds (y ∷ ys) x h = elim (Bool-cases (p y)) [
    | inl e ↦ subst (λ z. p z ≡ true) (some-injective y x (rw e at h)) e
    | inr e ↦ find_where-holds ys x (rw e at h)
  ]

  pub find_where-All {κ} :
      (P : A → Type κ) (xs : List A) (x : A) → All P xs → find_where p xs ≡ some x → P x
  find_where-All P [] x a h = cc
  find_where-All P (y ∷ ys) x a h = elim (Bool-cases (p y)) [
    | inl e ↦ subst P (some-injective y x (rw e at h)) a.0
    | inr e ↦ find_where-All P ys x a.1 (rw e at h)
  ]
