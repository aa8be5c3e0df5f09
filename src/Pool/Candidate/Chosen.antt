-- ===== src/Pool/Candidate/Chosen.antt =====
-- The ORDER BY of selectCardCandidate, described as a preference between two accounts, and what the
-- choice means by it.
use mathlib.Core.List.{Memᴰ}
use gptshare.Base.{
  ℕ, ◌-◌, ◌<◌, ◌≤◌, ◌≡◌, ◌⊎◌, inl, inr, refl, ap, sym, Bool, true, false, not, ◌&&◌, Option, none,
  some, List, [], ◌∷◌, max, min, ltb, ◌==◌, if◌then◌else◌, is_id, All, All-map, arith, Bool-cases,
  Option-cases,
}
use gptshare.Time.{julianday, text_key}
use gptshare.Pool.Types.{MonitorStatus, Account, Db}
use gptshare.Pool.Tables.{is_dead_normal}
use gptshare.Pool.Candidate.{
  order_keys, lex_leb, monitor_rank, previous_account, eligible, select_card_candidate, null_key,
  time_key, distance,
}
use gptshare.Pool.Candidate.Choice.{select-least, select-none}
use gptshare.Pool.Candidate.Fits.{Fits, eligible-Fits, Fits-eligible}

-- The lower number comes first, and `rest` decides between equal ones.
abbrev pub Then : ℕ → ℕ → Type 0 → Type 0
Then x y rest = (x < y) ⊎ ((x ≡ y) × rest)

-- What has the property comes before what has not.
abbrev pub First : Bool → Bool → Type 0 → Type 0
First p q rest = ((p ≡ true) × (q ≡ false)) ⊎ ((p ≡ q) × rest)

abbrev pub is_alive : MonitorStatus → Bool
is_alive MonitorStatus.alive = true
is_alive _ = false

abbrev pub is_unknown : MonitorStatus → Bool
is_unknown MonitorStatus.unknown = true
is_unknown MonitorStatus.unknown_monitor = true
is_unknown _ = false

-- With the monitor in reach: alive, then unknown, then dead_normal, then the others.
abbrev pub Livelier : Bool → MonitorStatus → MonitorStatus → Type 0 → Type 0
Livelier false s t rest = rest
Livelier true s t rest =
    First (is_alive s) (is_alive t)
      (First (is_unknown s) (is_unknown t) (First (is_dead_normal s) (is_dead_normal t) rest))

-- Never allocated, or longer ago.
abbrev pub Rested : Option ℕ → Option ℕ → Type 0 → Type 0
Rested none none rest = rest
Rested none (some t) rest = Unit
Rested (some s) none rest = ⊥
Rested (some s) (some t) rest = Then (text_key s) (text_key t) rest

-- The account of the card's last allocation, when it is wished for and not expired.
abbrev pub is_wished : Bool → ℕ → Db → Account → Bool
is_wished prefer_previous card_id db a =
    prefer_previous
    && not (is_dead_normal a.monitor_status)
    && is_id (previous_account card_id db) a.id

-- The wished account first, then the livelier one, then the one that outlives the card by less, then
-- the one that ends closer to the card, then the emptier one, then the one rested longer, then the
-- older one.
abbrev pub Preferred : Bool → Bool → ℕ → ℕ → Db → Account → Account → Type 0
Preferred monitor_available prefer_previous expiry card_id db a b =
    let end = julianday expiry in
    let s = julianday a.account_expiry in
    let t = julianday b.account_expiry in
    First (is_wished prefer_previous card_id db a) (is_wished prefer_previous card_id db b) (
      Livelier monitor_available a.monitor_status b.monitor_status (
        Then (s - end) (t - end) (
          Then (max s end - min s end) (max t end - min t end) (
            Then a.current_allocations b.current_allocations
              (Rested a.last_allocated_at b.last_allocated_at (a.id ≤ b.id))))))

module _ (R : Type 0) where
  lex-Then :
      (x y : ℕ) (xs ys : List ℕ)
      → lex_leb (x ∷ xs) (y ∷ ys) ≡ true
      → (lex_leb xs ys ≡ true → R)
      → Then x y R
  unfolding lex_leb
  lex-Then x y xs ys h rest = elim (Bool-cases (ltb x y)) [
    | inl e ↦ inl (ground (arith, e))
    | inr e ↦ inr (ground (arith, e, h), rest (ground (arith, e, h)))
  ]

  lex-First :
      (p q : Bool) (xs ys : List ℕ)
      → lex_leb ((if p then 0 else 1) ∷ xs) ((if q then 0 else 1) ∷ ys) ≡ true
      → (lex_leb xs ys ≡ true → R)
      → First p q R
  unfolding lex_leb
  lex-First true true xs ys h rest = inr (refl, rest (ground (arith, h)))
  lex-First true false xs ys h rest = inl (refl, refl)
  lex-First false true xs ys h rest = absurd (ground (arith, h))
  lex-First false false xs ys h rest = inr (refl, rest (ground (arith, h)))

  lex-Rested :
      (s t : Option ℕ) (xs ys : List ℕ)
      → lex_leb (null_key s ∷ time_key s ∷ xs) (null_key t ∷ time_key t ∷ ys) ≡ true
      → (lex_leb xs ys ≡ true → R)
      → Rested s t R
  unfolding lex_leb
  lex-Rested none none xs ys h rest = rest (ground (arith, h))
  lex-Rested none (some t) xs ys h rest = tt
  lex-Rested (some s) none xs ys h rest = absurd (ground (arith, h))
  lex-Rested (some s) (some t) xs ys h rest =
      lex-Then (text_key s) (text_key t) xs ys (ground (arith, h)) rest

  -- A lower rank below 4 is met first.
  rank-First :
      (x y : ℕ)
      → y < 4
      → Then x y R
      → First (x == 0) (y == 0) (First (x == 1) (y == 1) (First (x == 2) (y == 2) R))
  rank-First x y small (inr (e, r)) =
      inr (ap (λ n. n == 0) e, inr (ap (λ n. n == 1) e, inr (ap (λ n. n == 2) e, r)))
  rank-First x y small (inl less) = elim (Bool-cases (x == 0)) [
    | inl e ↦ inl (e, ground (arith, e, less))
    | inr e ↦ inr (
      ground (arith, e, less),
      elim (Bool-cases (x == 1)) [
        | inl f ↦ inl (f, ground (arith, f, less))
        | inr f ↦ inr (
          ground (arith, e, f, less),
          inl (ground (arith, e, f, less, small), ground (arith, e, f, less, small)),
        )
      ],
    )
  ]

rank_facts :
    (s : MonitorStatus)
    → ((monitor_rank s == 0) ≡ is_alive s)
      × ((monitor_rank s == 1) ≡ is_unknown s)
      × ((monitor_rank s == 2) ≡ is_dead_normal s)
      × (monitor_rank s < 4)
rank_facts MonitorStatus.alive = (refl, refl, refl, omega arith)
rank_facts MonitorStatus.unknown = (refl, refl, refl, omega arith)
rank_facts MonitorStatus.unknown_monitor = (refl, refl, refl, omega arith)
rank_facts MonitorStatus.dead_normal = (refl, refl, refl, omega arith)
rank_facts MonitorStatus.dead_banned = (refl, refl, refl, omega arith)
rank_facts MonitorStatus.not_found = (refl, refl, refl, omega arith)

lex-Livelier :
    (R : Type 0) (m : Bool) (s t : MonitorStatus) (xs ys : List ℕ)
    → lex_leb ((if m then monitor_rank s else 1) ∷ xs) ((if m then monitor_rank t else 1) ∷ ys)
      ≡ true
    → (lex_leb xs ys ≡ true → R)
    → Livelier m s t R
unfolding lex_leb
lex-Livelier R false s t xs ys h rest = rest (ground (arith, h))
lex-Livelier R true s t xs ys h rest =
    let (a, u, d, small) = rank_facts s in
    let (a', u', d', small') = rank_facts t in
    let met =
      rank-First R (monitor_rank s) (monitor_rank t) small'
        (lex-Then R (monitor_rank s) (monitor_rank t) xs ys h rest) in
    rw (a, u, d, a', u', d') at met

distance-max : (x y : ℕ) → distance x y ≡ max x y - min x y
distance-max x y = ground arith

last_key : (x y : ℕ) → lex_leb (x ∷ []) (y ∷ []) ≡ true → x ≤ y
unfolding lex_leb
last_key x y h = ground (arith, h)

keys-Preferred :
    (m prefer : Bool) (expiry card_id : ℕ) (db : Db) (a b : Account)
    → lex_leb (order_keys m prefer expiry card_id db a) (order_keys m prefer expiry card_id db b)
      ≡ true
    → Preferred m prefer expiry card_id db a b
unfolding order_keys
keys-Preferred m prefer expiry card_id db a b h =
    let end = julianday expiry in
    let s = julianday a.account_expiry in
    let t = julianday b.account_expiry in
    lex-First _ (is_wished prefer card_id db a) (is_wished prefer card_id db b) _ _ h λ h1.
      lex-Livelier _ m a.monitor_status b.monitor_status _ _ h1 λ h2.
        lex-Then _ (s - end) (t - end) _ _ h2 λ h3.
          rw (sym (distance-max s end), sym (distance-max t end))
            (lex-Then _ (distance s end) (distance t end) _ _ h3 λ h4.
              lex-Then _ a.current_allocations b.current_allocations _ _ h4 λ h5.
                lex-Rested _ a.last_allocated_at b.last_allocated_at _ _ h5
                  λ h6. last_key a.id b.id h6)

-- What the choice is among the accounts of the table.
abbrev pub Choice : ℕ → ℕ → Bool → ℕ → ℕ → Bool → Db → Option Account → Type 0
Choice now expiry monitor_available excluded card_id prefer_previous db none =
    All (λ b. Fits now excluded card_id db b → ⊥) db.accounts
Choice now expiry monitor_available excluded card_id prefer_previous db (some a) =
    Memᴰ a db.accounts
    × Fits now excluded card_id db a
    × All
        (λ b.
          Fits now excluded card_id db b
          → Preferred monitor_available prefer_previous expiry card_id db a b)
        db.accounts

-- The account that is chosen for a card is a row of the table that has a seat to give, is not of the
-- excluded account's name, and has no name that another running card of the group holds; and it is
-- preferred to every other such row: the card's last account if wished for, then the livelier one by
-- the monitor if that is in reach, the one that outlives the card by less, the one whose end is
-- closer to the card's, the one with fewer seats held, the one allocated longer ago or never, and the
-- one of the lower id. When none is chosen, there is no such row.
pub select-Choice :
    (now expiry : ℕ) (monitor_available : Bool) (excluded card_id : ℕ) (prefer_previous : Bool)
    (db : Db)
    → Choice now expiry monitor_available excluded card_id prefer_previous db
        (select_card_candidate now expiry monitor_available excluded card_id prefer_previous db)
select-Choice now expiry m excluded card_id prefer db =
    elim (Option-cases (select_card_candidate now expiry m excluded card_id prefer db)) [
      | inl e ↦ rw e (
          All-map (λ b. eligible now excluded card_id db b ≡ false) _
            (λ b no fits. absurd (ground (arith, no, Fits-eligible now card_id db b excluded fits)))
            db.accounts (select-none now expiry m excluded card_id prefer db e))
      | inr (a, e) ↦
          (let (row, fits, least) = select-least now expiry m excluded card_id prefer db a e in
            rw e (
              row,
              eligible-Fits now card_id db a excluded fits,
              All-map _ _
                  (λ b best fits_too.
                    keys-Preferred m prefer expiry card_id db a b
                      (best (Fits-eligible now card_id db b excluded fits_too)))
                  db.accounts least,
            ))
    ]
