-- ===== src/Pool/Candidate/Other.antt =====
-- The account that a move leaves is not chosen for the move: the parameter `excluded` of
-- selectCardCandidate.
use mathlib.Core.List.Memᴰ
use mathlib.Core.List.{Memᴰ}
use gptshare.Base.{ℕ, ◌<◌, ◌≡◌, ◌≢◌, Bool, false, some, List, [], ◌∷◌, All-member, arith, inl, inr}
use gptshare.Pool.Types.{Account, Db}
use gptshare.Pool.Candidate.{find_account, eligible, not_excluded, select_card_candidate}
use gptshare.Pool.Candidate.Choice.{select-least}
use gptshare.Pool.Ledger.Rows.{Distinct}

find-member :
    (k : ℕ) (a : Account) (rows : List Account)
    → Distinct rows
    → Memᴰ a rows
    → a.id ≡ k
    → find_account k rows ≡ some a
find-member k a [] d m e = absurd (Memᴰ.not-nil m)
find-member k a (x ∷ rows) d m e = elim (Memᴰ.cases_cons m) [
  | inl same ↦ ground (arith, same, e)
  | inr later ↦
      (let other = All-member (λ b. b.id ≢ x.id) a rows d.0 later in
        ground (arith, find-member k a rows d.1 later e, other, e))
]

excluded_self :
    (k : ℕ) (a : Account) (rows : List Account)
    → 0 < k
    → find_account k rows ≡ some a
    → not_excluded k rows a ≡ false
unfolding not_excluded
excluded_self k a rows pos h = rw h (ground arith)

pub select-other :
    (now expiry : ℕ) (m : Bool) (k card_id : ℕ) (prefer : Bool) (db : Db) (a : Account)
    → 0 < k
    → Distinct db.accounts
    → select_card_candidate now expiry m k card_id prefer db ≡ some a
    → a.id ≢ k
unfolding eligible
select-other now expiry m k card_id prefer db a pos d h e =
    let (member, fits, least) = select-least now expiry m k card_id prefer db a h in
    let out = excluded_self k a db.accounts pos (find-member k a db.accounts d member e) in
    absurd (ground (arith, fits, out))
