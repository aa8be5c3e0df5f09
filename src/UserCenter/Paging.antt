-- ===== src/UserCenter/Paging.antt =====
-- The pages of Events one after the other.
use gptshare.Base.{
  ℕ, zero, suc, ◌≤◌, ◌<◌, ◌≡◌, refl, sym, ap, ◌∙◌, Bool, true, false, none, some, List, [], ◌∷◌,
  ◌++◌, map, ltb, ◌==◌, length, arith, Bool-cases, inl, inr,
}
use gptshare.UserCenter.{
  Row, take, later_rows, list_redemption_events, event_limit, cursor, event_of, events,
}

-- Ids rise, from above `a`: the primary key's order.
abbrev pub Ascending : ℕ → List Row → Type 0
Ascending a [] = Unit
Ascending a (r ∷ rows) = (a < r.id) × Ascending r.id rows

abbrev drop {ℓ} : {A : Type ℓ} → ℕ → List A → List A
drop zero xs = xs
drop (suc n) [] = []
drop (suc n) (x ∷ xs) = drop n xs

-- A row after all others of the table is past every cursor before it.
later_rows-all : (b a : ℕ) (rows : List Row) → Ascending a rows → b ≤ a → later_rows b rows ≡ rows
later_rows-all b a [] h le = refl
later_rows-all b a (r ∷ rows) h le =
    let past : ltb b r.id ≡ true = ground (arith, h.0, le) in
    rw (past, later_rows-all b r.id rows h.1 (omega (arith, h.0, le))) refl

later_rows-Ascending :
    (b a : ℕ) (rows : List Row) → Ascending a rows → Ascending b (later_rows b rows)
later_rows-Ascending b a [] h = tt
later_rows-Ascending b a (r ∷ rows) h = elim (Bool-cases (ltb b r.id)) [
  | inl e ↦ rw (e, later_rows-all b r.id rows h.1 (ground (arith, e))) (ground (arith, e), h.1)
  | inr e ↦ rw e (later_rows-Ascending b r.id rows h.1)
]

later_rows-twice :
    (a b : ℕ) (rows : List Row) → a ≤ b → later_rows b (later_rows a rows) ≡ later_rows b rows
later_rows-twice a b [] le = refl
later_rows-twice a b (r ∷ rows) le = elim (Bool-cases (ltb a r.id)) [
  | inl e ↦ rw (e, later_rows-twice a b rows le) refl
  | inr e ↦
      (let before : ltb b r.id ≡ false = ground (arith, e, le) in
        rw (e, before, later_rows-twice a b rows le) refl)
]

cursor-le : (n a : ℕ) (rows : List Row) → Ascending a rows → a ≤ cursor a (take n rows)
cursor-le zero a rows h = omega arith
cursor-le (suc n) a [] h = omega arith
cursor-le (suc n) a (r ∷ rows) h = omega (arith, h.0, cursor-le n r.id rows h.1)

-- Past the cursor of a page is what the page left.
past_page :
    (n a : ℕ) (rows : List Row)
    → Ascending a rows
    → later_rows (cursor a (take n rows)) rows ≡ drop n rows
past_page zero a rows h = later_rows-all a a rows h (omega arith)
past_page (suc n) a [] h = refl
past_page (suc n) a (r ∷ rows) h =
    let low : ltb (cursor r.id (take n rows)) r.id ≡ false =
      ground (arith, cursor-le n r.id rows h.1) in
    rw (low, past_page n r.id rows h.1) refl

take-drop :
    (f : Row → Row) (n : ℕ) (rows : List Row)
    → map f (take n rows) ++ map f (drop n rows) ≡ map f rows
take-drop f zero rows = refl
take-drop f (suc n) [] = refl
take-drop f (suc n) (r ∷ rows) = ap (λ xs. f r ∷ xs) (take-drop f n rows)

drop-less : (n m : ℕ) (rows : List Row) → 0 < n → length rows ≤ suc m → length (drop n rows) ≤ m
drop-less zero m rows p le = absurd (omega (arith, p))
drop-less (suc zero) m [] p le = omega arith
drop-less (suc zero) m (r ∷ rows) p le = omega (arith, le)
drop-less (suc (suc n)) m [] p le = omega arith
drop-less (suc (suc n)) zero (r ∷ rows) p le =
    drop-less (suc n) zero rows (omega arith) (omega (arith, le))
drop-less (suc (suc n)) (suc m) (r ∷ rows) p le =
    omega (arith, drop-less (suc n) m rows (omega arith) (omega (arith, le)))

event_limit-positive : (limit : ℕ) → 0 < event_limit limit
unfolding event_limit
event_limit-positive limit = ground arith

module _ (valid : ℕ → Bool) where
  -- A reader that asks with one limit after the other, each time from the cursor it was given.
  abbrev pub follow : List ℕ → ℕ → List Row → List Row
  follow [] after rows = []
  follow (limit ∷ limits) after rows = elim (events valid after limit rows) [
    | none ↦ []
    | some page ↦ page.0 ++ follow limits page.1 rows
  ]

  events-page :
      (after limit : ℕ) (rows : List Row)
      → events valid after limit rows
        ≡ some (
          map (event_of valid) (take (event_limit limit) (later_rows after rows)),
          cursor after (take (event_limit limit) (later_rows after rows)),
        )
  unfolding events list_redemption_events
  events-page after limit rows =
      let positive : (event_limit limit == 0) ≡ false =
        ground (arith, event_limit-positive limit) in
      rw (events, list_redemption_events, positive) refl

  -- With any limits, as many calls as there are events after the cursor give all of them once, in
  -- the order of their ids, where the table is in that order.
  pub follow-all :
      (limits : List ℕ) (after : ℕ) (rows : List Row)
      → Ascending 0 rows
      → length (later_rows after rows) ≤ length limits
      → follow limits after rows ≡ map (event_of valid) (later_rows after rows)
  follow-all limits after rows h enough = pages limits after enough
    where
      none_left : (rest : List Row) → length rest ≤ 0 → [] ≡ map (event_of valid) rest
      none_left [] le = refl
      none_left (r ∷ rest) le = absurd (omega (arith, le))

      pages :
          (limits : List ℕ) (after : ℕ)
          → length (later_rows after rows) ≤ length limits
          → follow limits after rows ≡ map (event_of valid) (later_rows after rows)
      pages [] after enough = none_left (later_rows after rows) enough
      pages (limit ∷ limits) after enough =
          let left = later_rows after rows in
          let n = event_limit limit in
          let up = later_rows-Ascending after 0 rows h in
          let next = cursor after (take n left) in
          let rest : later_rows next rows ≡ drop n left =
            sym (later_rows-twice after next rows (cursor-le n after left up))
            ∙ past_page n after left up in
          let fewer = drop-less n (length limits) left (event_limit-positive limit) enough in
          let later : follow limits next rows ≡ map (event_of valid) (drop n left) =
            pages limits next (rw rest fewer) ∙ ap (map (event_of valid)) rest in
          rw (follow, events-page after limit rows)
            (ap (λ xs. map (event_of valid) (take n left) ++ xs) later
              ∙ take-drop (event_of valid) n left)
