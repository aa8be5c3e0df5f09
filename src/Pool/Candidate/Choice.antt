-- ===== src/Pool/Candidate/Choice.antt =====
-- Which account selectCardCandidate chooses.
use mathlib.Core.List.Memᴰ
use mathlib.Core.List.{Memᴰ}
use mathlib.Core.Option.{some-injective}
use mathlib.Core.Bool.{false≢true}
use gptshare.Base.{
  ℕ, ◌-◌, ◌≤◌, ◌≡◌, refl, sym, subst, ◌∙◌, ◌⊎◌, inl, inr, Bool, true, false, Option, none, some,
  List, [], ◌∷◌, where_rows, All, All-map, arith, Bool-cases,
}
use gptshare.Time.{julianday}
use gptshare.Pool.Types.{Account, Db}
use gptshare.Pool.Candidate.{
  lex_leb, keep_first, first_by, eligible, order_keys, select_card_candidate, monitor_rank,
}

pub lex_leb_refl : (xs : List ℕ) → lex_leb xs xs ≡ true
unfolding lex_leb
lex_leb_refl [] = refl
lex_leb_refl (x ∷ xs) = ground (arith, lex_leb_refl xs)

pub lex_leb_trans :
    (xs ys zs : List ℕ) → lex_leb xs ys ≡ true → lex_leb ys zs ≡ true → lex_leb xs zs ≡ true
unfolding lex_leb
lex_leb_trans [] ys zs h k = refl
lex_leb_trans (x ∷ xs) [] zs h k = cc
lex_leb_trans (x ∷ xs) (y ∷ ys) [] h k = cc
lex_leb_trans (x ∷ xs) (y ∷ ys) (z ∷ zs) h k = ground (arith, lex_leb_trans xs ys zs)

pub lex_leb-total : (xs ys : List ℕ) → lex_leb xs ys ≡ false → lex_leb ys xs ≡ true
unfolding lex_leb
lex_leb-total [] ys h = cc
lex_leb-total (x ∷ xs) [] h = refl
lex_leb-total (x ∷ xs) (y ∷ ys) h = ground (arith, lex_leb-total xs ys)

module _ (keys : Account → List ℕ) where
  abbrev Least : Account → List Account → Type 0
  Least a rows = Memᴰ a rows × All (λ b. lex_leb (keys a) (keys b) ≡ true) rows

  first_by-none : (rows : List Account) → first_by keys rows ≡ none → rows ≡ []
  unfolding first_by
  first_by-none [] h = refl
  first_by-none (a ∷ rows) h = ground arith

  step-Least :
      (a : Account) (rows : List Account) (o : Option Account)
      → ((b : Account) → o ≡ some b → Least b rows)
      → (o ≡ none → rows ≡ [])
      → (c : Account) → keep_first keys a o ≡ some c
      → Least c (a ∷ rows)
  unfolding keep_first
  step-Least a rows none least empty c h =
      subst (λ x. Least x (a ∷ rows)) (some-injective a c h)
        (Memᴰ.head refl, (lex_leb_refl (keys a), rw (empty refl) tt))
  step-Least a rows (some b) least empty c h = elim (Bool-cases (lex_leb (keys a) (keys b))) [
    | inl e ↦
        subst (λ x. Least x (a ∷ rows)) (some-injective a c (rw e at h))
          (
            Memᴰ.head refl,
            (
              lex_leb_refl (keys a),
              All-map (λ x. lex_leb (keys b) (keys x) ≡ true)
                  (λ x. lex_leb (keys a) (keys x) ≡ true)
                  (λ x. lex_leb_trans (keys a) (keys b) (keys x) e) rows (least b refl).1,
            ),
          )
    | inr e ↦
        subst (λ x. Least x (a ∷ rows)) (some-injective b c (rw e at h))
          (Memᴰ.tail (least b refl).0, (lex_leb-total (keys a) (keys b) e, (least b refl).1))
  ]

  first_by-Least : (rows : List Account) (a : Account) → first_by keys rows ≡ some a → Least a rows
  unfolding first_by
  first_by-Least [] a h = cc
  first_by-Least (a ∷ rows) c h =
      step-Least a rows (first_by keys rows) (λ b e. first_by-Least rows b e) (first_by-none rows) c
        h

module _ {κ} (p : Account → Bool) (Q : Account → Type κ) where
  where_rows-mem :
      (a : Account) (rows : List Account) → Memᴰ a (where_rows p rows) → Memᴰ a rows × (p a ≡ true)
  where_rows-mem a [] m = absurd (Memᴰ.not-nil m)
  where_rows-mem a (x ∷ rows) m = elim (Bool-cases (p x)) [
    | inl e ↦ found e (where_rows-mem a rows) (Memᴰ.cases_cons (rw e at m))
    | inr e ↦ later (where_rows-mem a rows (rw e at m))
  ]
    where
      later : Memᴰ a rows × (p a ≡ true) → Memᴰ a (x ∷ rows) × (p a ≡ true)
      later h = (Memᴰ.tail h.0, h.1)

      found :
          p x ≡ true
          → (Memᴰ a (where_rows p rows) → Memᴰ a rows × (p a ≡ true))
          → (a ≡ x) ⊎ Memᴰ a (where_rows p rows)
          → Memᴰ a (x ∷ rows) × (p a ≡ true)
      found e rest (inl same) = (Memᴰ.head same, rw same e)
      found e rest (inr m) = later (rest m)

  where_rows-All :
      (rows : List Account) → All Q (where_rows p rows) → All (λ a. p a ≡ true → Q a) rows
  where_rows-All [] h = tt
  where_rows-All (x ∷ rows) h = elim (Bool-cases (p x)) [
    | inl e ↦ (λ _. (rw e at h).0, where_rows-All rows (rw e at h).1)
    | inr e ↦ (λ t. absurd (false≢true (sym e ∙ t)), where_rows-All rows (rw e at h))
  ]

nobody :
    (p : Account → Bool) (rows : List Account)
    → where_rows p rows ≡ []
    → All (λ a. p a ≡ false) rows
nobody p [] h = tt
nobody p (a ∷ rows) h = elim (Bool-cases (p a)) [
  | inl e ↦ (let f : a ∷ where_rows p rows ≡ [] = rw e at h in cc)
  | inr e ↦ (e, nobody p rows (rw e at h))
]

module _ (now expiry : ℕ) (monitor_available : Bool) (excluded card_id : ℕ) (prefer_previous : Bool)
    (db : Db) where
  abbrev keys_of : Account → List ℕ
  keys_of = order_keys monitor_available prefer_previous expiry card_id db

  -- The account that is chosen is a row of the table that meets every condition of the WHERE clause,
  -- and its sort keys are at most those of every other row that meets them.
  pub select-least :
      (a : Account)
      → select_card_candidate now expiry monitor_available excluded card_id prefer_previous db
        ≡ some a
      → Memᴰ a db.accounts
        × (eligible now excluded card_id db a ≡ true)
        × All
            (λ b.
              eligible now excluded card_id db b ≡ true
              → lex_leb
                  (order_keys monitor_available prefer_previous expiry card_id db a)
                  (order_keys monitor_available prefer_previous expiry card_id db b)
                ≡ true)
            db.accounts
  unfolding select_card_candidate
  select-least a h =
      let (found, least) =
        first_by-Least keys_of (where_rows (eligible now excluded card_id db) db.accounts) a h in
      let (row, fits) =
        where_rows-mem (eligible now excluded card_id db)
          (λ b. lex_leb (keys_of a) (keys_of b) ≡ true) a db.accounts found in
      (
        row,
        fits,
        where_rows-All (eligible now excluded card_id db)
            (λ b. lex_leb (keys_of a) (keys_of b) ≡ true) db.accounts least,
      )

  -- When no account is chosen, no row meets the conditions.
  pub select-none :
      select_card_candidate now expiry monitor_available excluded card_id prefer_previous db ≡ none
      → All (λ a. eligible now excluded card_id db a ≡ false) db.accounts
  unfolding select_card_candidate
  select-none h = nobody (eligible now excluded card_id db) db.accounts (first_by-none keys_of _ h)

leading :
    (x y x' y' : ℕ) (r r' : List ℕ)
    → lex_leb (1 ∷ x ∷ y ∷ r) (1 ∷ x' ∷ y' ∷ r') ≡ true
    → (x ≤ x') × (x ≡ x' → y ≤ y')
unfolding lex_leb
leading x y x' y' r r' h = ground arith

-- With the monitor in reach and no wish for the previous account, no eligible account has a better
-- monitor status than the chosen one (alive before unknown before dead_normal before the others), and
-- none of the same status outlives the card by less.
pub select-preference :
    (now expiry excluded card_id : ℕ) (db : Db) (a : Account)
    → select_card_candidate now expiry true excluded card_id false db ≡ some a
    → All
        (λ b.
          eligible now excluded card_id db b ≡ true
          → (monitor_rank a.monitor_status ≤ monitor_rank b.monitor_status)
            × (monitor_rank a.monitor_status ≡ monitor_rank b.monitor_status
                → julianday a.account_expiry - julianday expiry
                  ≤ julianday b.account_expiry - julianday expiry))
        db.accounts
unfolding order_keys
select-preference now expiry excluded card_id db a h =
    All-map _ _ (λ b least fits. leading _ _ _ _ _ _ (least fits)) db.accounts
      (select-least now expiry true excluded card_id false db a h).2
