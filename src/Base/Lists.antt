-- ===== src/Base/Lists.antt =====
-- Lists as tables: rows that meet a test, updates of the rows that meet a test, and counts.
use Prim.Native.Nat.{ℕ, suc, ◌+◌, ◌≤◌}
use mathlib.Core.List.Memᴰ
use mathlib.Core.List.{Memᴰ}
use mathlib.Core.Path.{◌≡◌, refl, sym, subst}
use mathlib.Core.Bool.{Bool, true, false, ◌||◌}
use mathlib.Core.Option.{Option, none, some}
use mathlib.Core.List.{List, [], ◌∷◌, map}
use native.Mathlib.Omega.{arith}
use gptshare.Base.Tests.{if◌then◌else◌, Bool-cases}
use mathlib.Core.Logic.{◌⊎◌, inl, inr}

module _ {ℓ} {A : Type ℓ} where
  abbrev pub length : List A → ℕ
  length [] = 0
  length (x ∷ xs) = suc (length xs)

  -- SELECT ... WHERE p
  abbrev pub where_rows : (A → Bool) → List A → List A
  where_rows p [] = []
  where_rows p (x ∷ xs) = let rest = where_rows p xs in if p x then x ∷ rest else rest

  -- SELECT count(*) ... WHERE p
  abbrev pub count_where : (A → Bool) → List A → ℕ
  count_where p [] = 0
  count_where p (x ∷ xs) = (if p x then 1 else 0) + count_where p xs

  -- UPDATE ... SET f WHERE p
  abbrev pub update_where : (A → Bool) → (A → A) → List A → List A
  update_where p f [] = []
  update_where p f (x ∷ xs) = (if p x then f x else x) ∷ update_where p f xs

  -- EXISTS (SELECT 1 ... WHERE p)
  abbrev pub exists_where : (A → Bool) → List A → Bool
  exists_where p [] = false
  exists_where p (x ∷ xs) = p x || exists_where p xs

  -- The first row that meets the test.
  abbrev pub find_where : (A → Bool) → List A → Option A
  find_where p [] = none
  find_where p (x ∷ xs) = let rest = find_where p xs in if p x then some x else rest

  abbrev pub All {κ} : (A → Type κ) → List A → Type κ
  All P [] = Unit
  All P (x ∷ xs) = P x × All P xs

  pub All-map {κ λ'} :
      (P : A → Type κ) (Q : A → Type λ')
      → ((x : A) → P x → Q x)
      → (xs : List A) → All P xs
      → All Q xs
  All-map P Q h [] a = tt
  All-map P Q h (x ∷ xs) a = (h x a.0, All-map P Q h xs a.1)

  pub All-both {κ ι μ} :
      (P : A → Type κ) (Q : A → Type ι) (R : A → Type μ)
      → ((x : A) → P x → Q x → R x)
      → (xs : List A) → All P xs
      → All Q xs
      → All R xs
  All-both P Q R h [] a b = tt
  All-both P Q R h (x ∷ xs) a b = (h x a.0 b.0, All-both P Q R h xs a.1 b.1)

  pub All-member {κ} : (P : A → Type κ) (x : A) (xs : List A) → All P xs → Memᴰ x xs → P x
  All-member P x [] h m = absurd (Memᴰ.not-nil m)
  All-member P x (y ∷ xs) h m = elim (Memᴰ.cases_cons m) [
    | inl same ↦ subst P (sym same) h.0
    | inr later ↦ All-member P x xs h.1 later
  ]

  pub count_where-le-length : (p : A → Bool) (xs : List A) → count_where p xs ≤ length xs
  count_where-le-length p [] = omega arith
  count_where-le-length p (x ∷ xs) = ground (arith, count_where-le-length p xs)

module _ {ℓ} {A : Type ℓ} (p : A → Bool) (f : A → A) where
  -- A predicate after an update, row by row.
  pub All-update {κ ι} :
      (P : A → Type κ) (Q : A → Type ι)
      → ((x : A) → p x ≡ true → P x → Q (f x))
      → ((x : A) → p x ≡ false → P x → Q x)
      → (xs : List A) → All P xs
      → All Q (update_where p f xs)
  All-update P Q changed kept [] h = tt
  All-update P Q changed kept (x ∷ xs) h =
      (head (Bool-cases (p x)), All-update P Q changed kept xs h.1)
    where
      head : (p x ≡ true) ⊎ (p x ≡ false) → Q (if p x then f x else x)
      head (inl e) = rw e (changed x e h.0)
      head (inr e) = rw e (kept x e h.0)

  -- A test that the update of a row does not change.
  pub exists_where-update :
      (q : A → Bool)
      → ((x : A) → q (f x) ≡ q x)
      → (xs : List A) → exists_where q (update_where p f xs) ≡ exists_where q xs
  exists_where-update q same [] = refl
  exists_where-update q same (x ∷ xs) = elim (Bool-cases (p x)) [
    | inl e ↦ rw (e, same x, exists_where-update q same xs)
    | inr e ↦ rw (e, exists_where-update q same xs)
  ]

  -- An update under which no row comes to meet the test.
  pub count_where-update-le :
      (q : A → Bool)
      → ((x : A) → p x ≡ true → q (f x) ≡ true → q x ≡ true)
      → (xs : List A) → count_where q (update_where p f xs) ≤ count_where q xs
  count_where-update-le q less [] = omega arith
  count_where-update-le q less (x ∷ xs) = ground (arith, less x, count_where-update-le q less xs)

pub All-on_map {ℓ κ ι} :
    {A : Type ℓ} {B : Type κ} (P : B → Type ι) (f : A → B) (xs : List A)
    → All (λ x. P (f x)) xs
    → All P (map f xs)
All-on_map P f [] h = tt
All-on_map P f (x ∷ xs) h = (h.0, All-on_map P f xs h.1)

pub All-of_map {ℓ κ ι} :
    {A : Type ℓ} {B : Type κ} (P : B → Type ι) (f : A → B) (xs : List A)
    → All P (map f xs)
    → All (λ x. P (f x)) xs
All-of_map P f [] h = tt
All-of_map P f (x ∷ xs) h = (h.0, All-of_map P f xs h.1)

-- The row that an update leaves in the place of a row that was found.
abbrev pub patch {ℓ} : {A : Type ℓ} → (A → Bool) → (A → A) → Option A → Option A
patch p f none = none
patch p f (some x) = some (if p x then f x else x)

pub find_where-update {ℓ} :
    {A : Type ℓ} (p q : A → Bool) (f : A → A)
    → ((x : A) → q (f x) ≡ q x)
    → (xs : List A) → find_where q (update_where p f xs) ≡ patch p f (find_where q xs)
find_where-update p q f same [] = refl
find_where-update p q f same (x ∷ xs) = ground (arith, same x, find_where-update p q f same xs)
