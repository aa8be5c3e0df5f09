-- ===== src/UserCenter/Status/Shown.antt =====
-- What Status tells of a card, and of which cards.
use mathlib.Core.List.{Memᴰ}
use mathlib.Core.Option.{some-injective}
use gptshare.Base.{
  ℕ, ◌≡◌, refl, sym, subst, ◌∙◌, Bool, true, false, ◌&&◌, ◌||◌, Option, none, some, List, [], ◌∷◌,
  ltb, ◌==◌, ==_iff, All, exists_where, find_where, arith, Bool-cases, Option-cases, inl, inr,
}
use gptshare.Pool.Types.{CardStatus, AllocationState, Account, Card, Allocation, Db}
use gptshare.Pool.Tables.{occupies, is_primary, is_grace, is_redeemed}
use gptshare.Pool.Candidate.{find_card}
use gptshare.Pool.Claim.{of_card, runs}
use gptshare.Ticket.{Bytes}
use gptshare.UserCenter.Status.{
  BoundEntitlement, StatusItem, shown_seat, is_shown_state, name_of, current_username,
  bound_entitlement, note, bound_entitlements, entitlement_state, names_account, status_item,
  status_items, known_refs, status,
}

module _ {ℓ} {A : Type ℓ} where
  find_where-member :
      (p : A → Bool) (rows : List A) {x : A}
      → find_where p rows ≡ some x
      → Memᴰ x rows × (p x ≡ true)
  find_where-member p [] h = cc
  find_where-member p (y ∷ rows) {x} h = elim (Bool-cases (p y)) [
    | inl e ↦
        (let same : y ≡ x = some-injective y x (rw e at h) in
          (Memᴰ.head (sym same), subst (λ z. p z ≡ true) same e))
    | inr e ↦ (let (m, holds) = find_where-member p rows (rw e at h) in (Memᴰ.tail m, holds))
  ]

-- A seat of the card at an account of this name.
pub record Seated (card_id name : ℕ) (db : Db) : Type 0 where
  pub seat : Allocation
  pub account : Account
  pub held : Memᴰ seat db.allocations
  pub of_this_card : seat.card_id ≡ card_id
  pub in_use : occupies seat ≡ true
  pub listed : Memᴰ account db.accounts
  pub at_account : account.id ≡ seat.account_id
  pub named : account.username ≡ name

-- A card that an item may tell of: it is asked for and was redeemed or claimed by a user, and the
-- account's name is told only while the card runs, of an account where it has a seat.
pub record Disclosed (now : ℕ) (db : Db) (ids : List ℕ) (i : StatusItem) : Type 0 where
  pub asked : Memᴰ i.card_id ids
  pub bound : exists_where (of_card i.card_id) db.events ≡ true
  pub runs_now :
      (name : ℕ)
      → i.username ≡ some name
      → (c : Card) × (find_card i.card_id db.cards ≡ some c) × (runs now c ≡ true)
  pub seated : (name : ℕ) → i.username ≡ some name → Seated i.card_id name db

seat-Seated :
    (first : Bool) (card_id name : ℕ) (db : Db) (l : Allocation)
    → find_where (shown_seat first card_id db.accounts) db.allocations ≡ some l
    → name_of db.accounts (some l) ≡ some name
    → Seated card_id name db
unfolding occupies
seat-Seated first card_id name db l found named =
    let (m, shown) = find_where-member _ db.allocations found in
    elim (Option-cases (find_where (λ a. a.id == l.account_id) db.accounts)) [
      | inl e ↦ absurd (ground (arith, e, named))
      | inr (a, e) ↦
          (let (ma, same) = find_where-member _ db.accounts e in
            record {
              seat = l;
              account = a;
              held = m;
              of_this_card = ground (arith, shown);
              in_use =
                  state_in_use first l.allocation_state l.active (ground (arith, shown))
                    (ground (arith, shown));
              listed = ma;
              at_account = (==_iff a.id l.account_id).0 same;
              named = some-injective a.username name (rw (e, name_of) at named);
            })
    ]
  where
    state_in_use :
        (first : Bool) (s : AllocationState) (active : Bool)
        → active ≡ true
        → is_shown_state first s ≡ true
        → (active && (is_primary s || is_grace s)) ≡ true
    state_in_use first AllocationState.primary active h e = ground (arith, h)
    state_in_use first AllocationState.grace active h e = ground (arith, h)
    state_in_use first AllocationState.replaced active h e = cc
    state_in_use first AllocationState.expired active h e = cc
    state_in_use first AllocationState.revoked active h e = cc

username-Seated :
    (card_id name : ℕ) (db : Db) → current_username card_id db ≡ some name → Seated card_id name db
unfolding current_username
username-Seated card_id name db h =
    elim (Option-cases (find_where (shown_seat true card_id db.accounts) db.allocations)) [
      | inr (l, e) ↦ seat-Seated true card_id name db l e (rw (e, current_username) at h)
      | inl e ↦
          elim (Option-cases (find_where (shown_seat false card_id db.accounts) db.allocations)) [
            | inr (l, e2) ↦
                seat-Seated false card_id name db l e2 (rw (e, e2, current_username) at h)
            | inl e2 ↦ absurd (ground (arith, e, e2, h))
          ]
    ]

-- What a card is told by: its row, its binding and its name.
record Told (db : Db) (e : BoundEntitlement) : Type 0 where
  card : Card
  found : find_card e.card_id db.cards ≡ some card
  bound : exists_where (of_card e.card_id) db.events ≡ true
  status_of : e.status ≡ card.status
  expiry_of : e.expires_at ≡ card.expires_at
  name_of_it : e.current_username ≡ current_username e.card_id db

bound_entitlement-Told :
    (k : ℕ) (db : Db) {e : BoundEntitlement}
    → bound_entitlement k db ≡ some e
    → (e.card_id ≡ k) × Told db e
unfolding bound_entitlement
bound_entitlement-Told k db {e} h = elim (Option-cases (find_card k db.cards)) [
  | inl n ↦ absurd (ground (arith, n, h))
  | inr (c, n) ↦ elim (Bool-cases (exists_where (of_card k) db.events)) [
    | inr b ↦ absurd (ground (arith, n, b, h))
    | inl b ↦
        (let made : BoundEntitlement = record {
          card_id = k;
          duration_days = c.duration_days;
          status = c.status;
          expires_at = c.expires_at;
          current_username = current_username k db;
        } in
          let same : made ≡ e = some-injective made e (rw (n, b, bound_entitlement) at h) in
          subst (λ (x : BoundEntitlement). (x.card_id ≡ k) × Told db x) same
            (
              refl,
              record {
                card = c;
                found = n;
                bound = b;
                status_of = refl;
                expiry_of = refl;
                name_of_it = refl;
              },
            ))
  ]
]

state-runs :
    (now : ℕ) (c : Card) → names_account (entitlement_state now c.status c.expires_at) ≡ runs now c
unfolding entitlement_state
state-runs now c = by_fields c.status c.expires_at
  where
    by_fields :
        (s : CardStatus) (t : Option ℕ)
        → names_account (entitlement_state now s t)
          ≡ elim t [ none ↦ false | some t ↦ is_redeemed s && ltb now t ]
    by_fields CardStatus.unused none = refl
    by_fields CardStatus.unused (some t) = refl
    by_fields CardStatus.redeemed none = refl
    by_fields CardStatus.redeemed (some t) = ground arith
    by_fields CardStatus.expired none = refl
    by_fields CardStatus.expired (some t) = refl
    by_fields CardStatus.revoked none = refl
    by_fields CardStatus.revoked (some t) = refl
    by_fields CardStatus.consumed none = refl
    by_fields CardStatus.consumed (some t) = refl

abbrev Noted : Db → List ℕ → BoundEntitlement → Type 0
Noted db ids e = Memᴰ e.card_id ids × Told db e

note-Noted :
    (db : Db) (ids : List ℕ) (k : ℕ) (found : List BoundEntitlement)
    → Memᴰ k ids
    → All (Noted db ids) found
    → All (Noted db ids) (note db k found)
note-Noted db ids k found m h = elim (Bool-cases (exists_where (λ e. e.card_id == k) found)) [
  | inl e ↦ rw e h
  | inr e ↦ elim (Option-cases (bound_entitlement k db)) [
    | inl n ↦ rw (e, n) h
    | inr (b, n) ↦
        (let (same, told) = bound_entitlement-Told k db n in
          rw (e, n) ((subst (λ i. Memᴰ i ids) (sym same) m, told), h))
  ]
]

bound_entitlements-Noted :
    (db : Db) (ids ks : List ℕ) (found : List BoundEntitlement)
    → ((k : ℕ) → Memᴰ k ks → Memᴰ k ids)
    → All (Noted db ids) found
    → All (Noted db ids) (bound_entitlements db ks found)
unfolding bound_entitlements
bound_entitlements-Noted db ids [] found sub h = h
bound_entitlements-Noted db ids (k ∷ ks) found sub h =
    bound_entitlements-Noted db ids ks (note db k found) (λ i m. sub i (Memᴰ.tail m))
      (note-Noted db ids k found (sub k (Memᴰ.head refl)) h)

status_item-Disclosed :
    (now : ℕ) (db : Db) (ids : List ℕ) (e : BoundEntitlement)
    → Noted db ids e
    → Disclosed now db ids (status_item now e)
status_item-Disclosed now db ids e (asked, told) = record {
  asked = asked;
  bound = told.bound;
  runs_now = λ name h. (
    told.card,
    told.found,
    sym (state-runs now told.card) ∙ sym (shows told) ∙ (opened name h).0,
  );
  seated = λ name h. username-Seated e.card_id name db (sym told.name_of_it ∙ (opened name h).1);
}
  where
    shows :
        (told : Told db e)
        → names_account (entitlement_state now e.status e.expires_at)
          ≡ names_account (entitlement_state now told.card.status told.card.expires_at)
    shows told = rw (told.status_of, told.expiry_of) refl

    opened :
        (name : ℕ)
        → (status_item now e).username ≡ some name
        → (names_account (entitlement_state now e.status e.expires_at) ≡ true)
          × (e.current_username ≡ some name)
    opened name h =
        elim (Bool-cases (names_account (entitlement_state now e.status e.expires_at))) [
          | inl b ↦ (b, (rw (b, status_item) at h))
          | inr b ↦ absurd (ground (arith, b, h))
        ]

status_items-Disclosed :
    (now : ℕ) (db : Db) (ids : List ℕ) (es : List BoundEntitlement)
    → All (Noted db ids) es
    → All (Disclosed now db ids) (status_items now es)
status_items-Disclosed now db ids [] h = tt
status_items-Disclosed now db ids (e ∷ es) h =
    (status_item-Disclosed now db ids e h.0, status_items-Disclosed now db ids es h.1)

-- Every item of a status answer belongs to a card that is asked for and that a user redeemed or
-- claimed, and it names an account only if the card runs at the time and has a seat there.
pub status-Disclosed :
    (now : ℕ) (db : Db) (refs : List Bytes)
    → All (Disclosed now db (known_refs refs)) (status now db refs)
unfolding status
status-Disclosed now db refs =
    status_items-Disclosed now db (known_refs refs) _
      (bound_entitlements-Noted db (known_refs refs) (known_refs refs) [] (λ k m. m) tt)
