-- ===== src/Monitor/Credential.antt =====
-- The write of rotated credentials: persistCredentialsCAS of internal/monitor/service.go. The sealed
-- credentials themselves are left out.
use gptshare.Base.{
  ℕ, suc, ◌≡◌, refl, ap, Bool, false, not, ◌&&◌, List, [], ◌∷◌, ◌==◌, update_where, count_where,
  arith, Bool-cases, inl, inr,
}
use gptshare.Monitor.Types.{Account, Store}

abbrev pub at_generation : ℕ → ℕ → Account → Bool
at_generation k g a = a.id == k && not a.deleted && a.generation == g

abbrev pub next_generation : Account → Account
next_generation a = record a { generation = suc a.generation }

-- The update of persistCredentialsCAS, and whether it changed one row.
unfoldable pub persist_credentials_cas : ℕ → ℕ → Store → Store × Bool
persist_credentials_cas k g s = (
  record s { accounts = update_where (at_generation k g) next_generation s.accounts },
  count_where (at_generation k g) s.accounts == 1,
)

spent :
    (k g : ℕ) (rows : List Account)
    → let next = update_where (at_generation k g) next_generation rows in
      (count_where (at_generation k g) next ≡ 0)
      × (update_where (at_generation k g) next_generation next ≡ next)
spent k g [] = (refl, refl)
spent k g (a ∷ rows) =
    let (none_left, same) = spent k g rows in
    elim (Bool-cases (at_generation k g a)) [
      | inl e ↦
          (let moved : at_generation k g (next_generation a) ≡ false = ground (arith, e) in
            rw (e, moved) (omega (arith, none_left), ap (λ r. next_generation a ∷ r) same))
      | inr e ↦ rw (e, e) (omega (arith, none_left), ap (λ r. a ∷ r) same)
    ]

-- After a write of rotated credentials, whether it succeeded or not, a write from the same snapshot
-- of the same account fails and changes nothing.
pub persist_credentials_once :
    (k g : ℕ) (s : Store)
    → persist_credentials_cas k g (persist_credentials_cas k g s).0
      ≡ ((persist_credentials_cas k g s).0, false)
unfolding persist_credentials_cas
persist_credentials_once k g s =
    let (none_left, same) = spent k g s.accounts in rw (none_left, same) refl
