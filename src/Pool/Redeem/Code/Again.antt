-- ===== src/Pool/Redeem/Code/Again.antt =====
-- The same code, entered a second time.
use gptshare.Base.{
  ℕ, ◌≡◌, refl, sym, ap, subst, ◌∙◌, ◌⊎◌, Bool, true, false, ◌||◌, Option, none, some, List, [],
  ◌∷◌, ◌==◌, find_where, where_rows, exists_where, is_none, is_some, arith, Bool-cases, inl, inr,
}
use gptshare.Time.{datetime}
use gptshare.Pool.Types.{
  Card, CardStatus, Allocation, Binding, Db, Error, Result, ok, err, card_state_conflict, or_fail,
  no_rows, >>=-eq-ok, ok-injective,
}
use gptshare.Pool.Tables.{is_unused, after}
use gptshare.Pool.Seats.{active_primary, new_allocation}
use gptshare.Pool.Claim.{Claim, runs, of_card, claim_row, claim_card, take_over}
use gptshare.Pool.Redeem.{
  consume_bind_nonce, insert_event, backfill_card_code, skips_archive, redeem_card,
}
use gptshare.Pool.Redeem.Once.{redeem-Outcome, redeem_once}
use gptshare.Pool.Redeem.Code.{
  Bind, oldest_first, is_shown, shown_rows, read_all, existing_redeem, repeat_redeem, first_bind,
  redeem_code,
}
use gptshare.Pool.Books.Redeem.{redeem-Redeemed, give_seat-eq, consume-rows, backfill-rows}

none_shown :
    (now card_id : ℕ) (ls : List Allocation)
    → exists_where (active_primary card_id) ls ≡ false
    → where_rows (is_shown true now card_id) ls ≡ []
none_shown now card_id [] h = refl
none_shown now card_id (l ∷ ls) h =
    let hidden : is_shown true now card_id l ≡ false = ground (arith, h) in
    rw (hidden, none_shown now card_id ls (ground (arith, h))) refl

bound_event :
    (has_keyring : Bool) (b : Binding) (id : ℕ) (db : Db)
    → exists_where
        (of_card id)
        (backfill_card_code has_keyring (some b) id (insert_event (some b) id false db)).events
      ≡ true
unfolding backfill_card_code insert_event
bound_event kr b id db = elim (Bool-cases (skips_archive kr b)) [
  | inl e ↦ rw e (ground arith)
  | inr e ↦ rw e (ground arith)
]

shown-new :
    (now id card_id account_id at valid_until : ℕ) (ls : List Allocation)
    → exists_where (active_primary card_id) ls ≡ false
    → after now valid_until ≡ true
    → shown_rows now card_id (new_allocation id card_id account_id at valid_until ∷ ls)
      ≡ new_allocation id card_id account_id at valid_until
        ∷ oldest_first (where_rows (is_shown false now card_id) ls)
shown-new now id card_id account_id at valid_until ls only late =
    let new = new_allocation id card_id account_id at valid_until in
    let shown : is_shown true now card_id new ≡ true = ground (arith, late) in
    let hidden : is_shown false now card_id new ≡ false = ground (arith, late) in
    rw (shown, hidden, none_shown now card_id ls only) refl

-- What is left of a redemption for the next reader of the code.
record Given (binding : Option Binding) (code_hash : ℕ) (r : Db × Allocation) : Type 0 where
  card : Card
  found : find_where (λ c. c.code_hash == code_hash) r.0.cards ≡ some card
  redeemed : card.status ≡ CardStatus.redeemed
  expires : card.expires_at ≡ some r.1.valid_until
  id : ℕ
  account_id : ℕ
  at : ℕ
  older : List Allocation
  seat : r.1 ≡ new_allocation id card.id account_id at r.1.valid_until
  rows : r.0.allocations ≡ r.1 ∷ older
  only : exists_where (active_primary card.id) older ≡ false
  event : is_some binding ≡ true → exists_where (of_card card.id) r.0.events ≡ true

module _ (now : ℕ) (has_keyring monitor_available : Bool) (code_hash : ℕ) where
  redeem-event :
      (binding : Option Binding) (db : Db) {r : Db × Allocation}
      → redeem_card now has_keyring monitor_available code_hash binding db ≡ ok r
      → is_some binding ≡ true
      → exists_where (of_card r.1.card_id) r.0.events ≡ true
  redeem-event none db h e = cc
  redeem-event (some b) db h e =
      let d = redeem-Redeemed now has_keyring monitor_available code_hash (some b) db h in
      rw d.result (bound_event has_keyring b d.card.id d.seated.0)

  redeem-Given :
      (binding : Option Binding) (db : Db) {r : Db × Allocation}
      → redeem_card now has_keyring monitor_available code_hash binding db ≡ ok r
      → Given binding code_hash r
  redeem-Given binding db {r} h =
      let o = redeem-Outcome now has_keyring monitor_available code_hash binding db h in
      let d = redeem-Redeemed now has_keyring monitor_available code_hash binding db h in
      let (one, fresh, card_row, given) =
        give_seat-eq now d.card d.account d.expires d.bound d.given in
      let (ra, rl, rn, rc) = consume-rows binding db d.consumed in
      let made : r.1 ≡ new_allocation d.seated.1 d.card.id d.account.id now d.expires =
        ap (λ (x : Db × Allocation). x.1) d.result in
      let same : d.card.id ≡ o.later.id =
        sym (ap (λ (l : Allocation). l.card_id) made) ∙ o.of_card ∙ sym o.same_card in
      let same_id : r.1.card_id ≡ o.later.id = o.of_card ∙ sym o.same_card in
      let none_before : exists_where (active_primary d.card.id) db.allocations ≡ false =
        rw rl at fresh in
      record {
        card = o.later;
        found = o.found_later;
        redeemed = o.redeemed;
        expires = o.expires ∙ ap some (sym o.valid);
        id = d.seated.1;
        account_id = d.account.id;
        at = now;
        older = db.allocations;
        seat =
            made
            ∙ ap (λ k. new_allocation d.seated.1 k d.account.id now d.expires) same
            ∙ ap (λ t. new_allocation d.seated.1 o.later.id d.account.id now t)
                (sym (ap (λ (l : Allocation). l.valid_until) made));
        rows = o.newest;
        only = rw same at none_before;
        event = λ e. rw same_id at (redeem-event binding db h e);
      }

module _ (has_keyring : Bool) (opens : ℕ → Bool) (now : ℕ) (code_hash : ℕ) where
  existing-Given :
      (binding : Option Binding) {r : Db × Allocation}
      → Given binding code_hash r
      → after now r.1.valid_until ≡ true
      → read_all has_keyring opens r.0.accounts (shown_rows now r.1.card_id r.0.allocations) ≡ ok tt
      → existing_redeem has_keyring opens now code_hash r.0 ≡ ok r.1
  unfolding existing_redeem
  existing-Given binding {r} g late read =
      let same_id : r.1.card_id ≡ g.card.id = ap (λ (l : Allocation). l.card_id) g.seat in
      let views =
        ap (shown_rows now g.card.id) (g.rows ∙ ap (λ l. l ∷ g.older) g.seat)
        ∙ shown-new now g.id g.card.id g.account_id g.at r.1.valid_until g.older g.only late in
      let open_all : read_all has_keyring opens r.0.accounts
            (shown_rows now g.card.id r.0.allocations)
          ≡ ok tt =
        rw same_id at read in
      rw (existing_redeem, g.found, g.redeemed, open_all, views) (ap ok (sym g.seat))

  claim-bound :
      (binding : Option Binding) (b : Binding) {r : Db × Allocation}
      → Given binding code_hash r
      → is_some binding ≡ true
      → after now r.1.valid_until ≡ true
      → claim_card now has_keyring code_hash (some b) r.0 ≡ ok (r.0, Claim.already_bound)
  unfolding claim_card claim_row datetime
  claim-bound binding b {r} g bound late =
      let running : runs now g.card ≡ true = rw (g.expires, g.redeemed) (ground (arith, late)) in
      rw (g.found, running, g.event bound) refl

abbrev pub again_bind : Option Binding → Bind
again_bind none = Bind.unbound
again_bind (some b) = Bind.claim Claim.already_bound

abbrev Seats : Db → Db → Type 0
Seats db later = (later.accounts ≡ db.accounts) × (later.allocations ≡ db.allocations)

take_over-Seats :
    (has_keyring : Bool) (b : Binding) (card_id : ℕ) (db : Db) {c : Db × Claim}
    → take_over has_keyring (some b) card_id db ≡ ok c
    → Seats db c.0
unfolding take_over
take_over-Seats kr b card_id db h =
    let (bound, spent, h1) = >>=-eq-ok (consume_bind_nonce (some b) db) _ h in
    let (ra, rl, rn, rc) = consume-rows (some b) db spent in
    let (fa, fl, fn) = backfill-rows kr true (some b) card_id bound in
    subst (λ (q : Db × Claim). Seats db q.0) (ok-injective h1) (fa ∙ ra, fl ∙ rl)

claim-Seats :
    (now : ℕ) (has_keyring : Bool) (code_hash : ℕ) (b : Binding) (db : Db) {c : Db × Claim}
    → claim_card now has_keyring code_hash (some b) db ≡ ok c
    → Seats db c.0
unfolding claim_card claim_row
claim-Seats now kr hash b db h =
    let (card, found, h1) =
      >>=-eq-ok (or_fail (find_where (λ c. c.code_hash == hash) db.cards) no_rows) _ h in
    elim (Bool-cases (runs now card)) [
      | inr e ↦ subst (λ (q : Db × Claim). Seats db q.0) (ok-injective (rw e at h1)) (refl, refl)
      | inl e ↦ elim (Bool-cases (exists_where (of_card card.id) db.events)) [
        | inl x ↦
            subst (λ (q : Db × Claim). Seats db q.0) (ok-injective (rw (e, x) at h1)) (refl, refl)
        | inr x ↦ take_over-Seats kr b card.id db (rw (e, x) at h1)
      ]
    ]

Result-cases :
    (c : Result (Db × Claim)) → ((e : Error) × (c ≡ err e)) ⊎ ((q : Db × Claim) × (c ≡ ok q))
Result-cases (err e) = inl (e, refl)
Result-cases (ok q) = inr (q, refl)

repeat-Seats :
    (has_keyring : Bool) (opens : ℕ → Bool) (now code_hash : ℕ) (binding : Option Binding) (db : Db)
    → Seats db (repeat_redeem has_keyring opens now code_hash binding db).0
unfolding repeat_redeem
repeat-Seats kr opens now hash none db = (refl, refl)
repeat-Seats kr opens now hash (some b) db =
    elim (Result-cases (claim_card now kr hash (some b) db)) [
      | inl (e, h) ↦ rw (repeat_redeem, h) (refl, refl)
      | inr (q, h) ↦ rw (repeat_redeem, h) (claim-Seats now kr hash b db h)
    ]

-- On any database in which the code's card is not unused, no seat is given or taken.
redeem_code-Seats :
    (has_keyring : Bool) (opens : ℕ → Bool) (now : ℕ) (monitor_available : Bool) (code_hash : ℕ)
    (binding : Option Binding) (db : Db) (card : Card)
    → find_where (λ c. c.code_hash == code_hash) db.cards ≡ some card
    → is_unused card.status ≡ false
    → Seats db (redeem_code has_keyring opens now monitor_available code_hash binding db).0
unfolding redeem_code redeem_card
redeem_code-Seats kr opens now ma hash binding db card found used =
    let refused : redeem_card now kr ma hash binding db ≡ err card_state_conflict =
      rw (redeem_card, found, used) refl in
    rw (redeem_code, refused) (repeat-Seats kr opens now hash binding db)

-- A redemption that goes through returns its new allocation, and when the same code is entered again
-- before the allocation's end, the same allocation is returned and no table is changed: the first
-- call is answered with or without a ticket, and the second one has none unless the first one had.
-- The secrets of the accounts whose seats the card holds have to be readable for the second answer.
-- On any other database in which the code's card is found and not unused, whatever the answer, the
-- accounts and the allocations stay as they are.
pub redeem_code-again :
    (has_keyring : Bool) (opens : ℕ → Bool) (now : ℕ) (monitor_available : Bool) (code_hash : ℕ)
    (binding : Option Binding) (db : Db) {r : Db × Allocation} (has_keyring' : Bool)
    (opens' : ℕ → Bool) (now' : ℕ) (monitor_available' : Bool) (binding' : Option Binding)
    (later : Db) (card : Card)
    → redeem_card now has_keyring monitor_available code_hash binding db ≡ ok r
    → after now' r.1.valid_until ≡ true
    → read_all has_keyring' opens' r.0.accounts (shown_rows now' r.1.card_id r.0.allocations)
      ≡ ok tt
    → (is_none binding' || is_some binding) ≡ true
    → find_where (λ c. c.code_hash == code_hash) later.cards ≡ some card
    → is_unused card.status ≡ false
    → (redeem_code has_keyring opens now monitor_available code_hash binding db
        ≡ (r.0, ok (record { allocation = r.1; bind = first_bind binding })))
      × (redeem_code has_keyring' opens' now' monitor_available' code_hash binding' r.0
          ≡ (r.0, ok (record { allocation = r.1; bind = again_bind binding' })))
      × ((redeem_code has_keyring' opens' now' monitor_available' code_hash binding'
            later).0.accounts
          ≡ later.accounts)
      × ((redeem_code has_keyring' opens' now' monitor_available' code_hash binding'
            later).0.allocations
          ≡ later.allocations)
unfolding redeem_code repeat_redeem
redeem_code-again kr opens now ma hash binding db {r} kr' opens' now' ma' binding' later card h late
      read allowed found used =
    let g = redeem-Given now kr ma hash binding db h in
    let refused = redeem_once now kr ma hash binding db now' kr' ma' binding' h in
    let existing = existing-Given kr' opens' now' hash binding g late read in
    let seats = redeem_code-Seats kr' opens' now' ma' hash binding' later card found used in
    (
      rw (redeem_code, h) refl,
      rw (redeem_code, refused) (again binding' allowed g existing),
      seats.0,
      seats.1,
    )
  where
    again :
        (binding' : Option Binding)
        → (is_none binding' || is_some binding) ≡ true
        → Given binding hash r
        → existing_redeem kr' opens' now' hash r.0 ≡ ok r.1
        → repeat_redeem kr' opens' now' hash binding' r.0
          ≡ (r.0, ok (record { allocation = r.1; bind = again_bind binding' }))
    again none allowed g existing = rw (repeat_redeem, existing) refl
    again (some b) allowed g existing =
        let claimed = claim-bound kr' opens' now' hash binding b g allowed late in
        rw (repeat_redeem, claimed, existing) refl
