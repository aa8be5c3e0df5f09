-- ===== src/Ticket/Issue.antt =====
-- A ticket as the user center issues it, for Verify to read: the form that ticket.go states.
use gptshare.Base.{
  ℕ, ◌≤◌, ◌≡◌, refl, sym, ap, ◌∙◌, true, false, not, ◌||◌, Option, none, some, [], ◌∷◌, ◌++◌, ltb,
  ◌==◌, if◌then◌else◌, length, arith, Bool-cases, Option-cases, inl, inr,
}
use gptshare.Ticket.{
  Bytes, Ticket, Payload, same_bytes, cut, has_dot, is_nil, dot, max_ticket_length, expired_at,
  read_payload, text_of, signed, open_payload, verify_parts, verify,
}
use gptshare.Ticket.Sound.{read_payload-Granted}

same_bytes_refl : (x : Bytes) → same_bytes x x ≡ true
unfolding same_bytes
same_bytes_refl [] = refl
same_bytes_refl (c ∷ cs) = ground (arith, same_bytes_refl cs)

cut-append : (a b : Bytes) → has_dot a ≡ false → cut (a ++ dot ∷ b) ≡ some (a, b)
unfolding cut
cut-append [] b h = refl
cut-append (c ∷ a) b h =
    let rest = cut-append a b (ground (arith, h)) in
    let plain : (c == dot) ≡ false = ground (arith, h) in rw (plain, rest) refl

module _ (hmac : Bytes → Bytes) (decode : Bytes → Option Bytes) (encode : Bytes → Bytes)
    (parse : Bytes → Option Payload) where
  -- `<payload_b64url>.<sig_b64url>`
  abbrev pub issue : Bytes → Bytes
  issue json = encode json ++ dot ∷ encode (hmac (encode json))

  whole_text :
      (now : ℕ) (raw a b : Bytes)
      → is_nil raw ≡ false
      → ltb max_ticket_length (length raw) ≡ false
      → cut raw ≡ some (a, b)
      → verify hmac decode parse now raw ≡ verify_parts hmac decode parse now a b
  unfolding verify
  whole_text now raw a b n l c = rw (n, l, c) refl

  signed_own :
      (a b : Bytes)
      → decode b ≡ some (hmac a)
      → (length (hmac a) == 32) ≡ true
      → signed hmac decode parse a b ≡ true
  unfolding signed
  signed_own a b s l = rw (s, signed, l) (same_bytes_refl (hmac a))

  accepted_parts :
      (now : ℕ) (a b : Bytes)
      → is_nil a ≡ false
      → is_nil b ≡ false
      → has_dot b ≡ false
      → decode b ≡ some (hmac a)
      → (length (hmac a) == 32) ≡ true
      → verify_parts hmac decode parse now a b
        ≡ elim (open_payload hmac decode parse a) [ none ↦ none | some p ↦ read_payload now p ]
  unfolding verify_parts
  accepted_parts now a b na nb d s l = rw (na, nb, d, signed_own a b s l) refl

  -- Of a text in the issued form, which is short enough, Verify returns what it reads of the payload
  -- that was put in, where the decoder undoes an encoder that makes no separator and nothing empty
  -- of what is not, and HMAC-SHA256 gives 32 bytes.
  pub verify-issue :
      (now : ℕ) (json : Bytes)
      → ((x : Bytes) → decode (encode x) ≡ some x)
      → ((x : Bytes) → has_dot (encode x) ≡ false)
      → ((x : Bytes) → is_nil (encode x) ≡ is_nil x)
      → ((x : Bytes) → length (hmac x) ≡ 32)
      → is_nil json ≡ false
      → length (issue json) ≤ max_ticket_length
      → verify hmac decode parse now (issue json)
        ≡ elim (parse json) [ none ↦ none | some p ↦ read_payload now p ]
  unfolding open_payload
  verify-issue now json undo plain filled size full short =
      let payload_part = encode json in
      let code = hmac payload_part in
      let sig_part = encode code in
      let long : ltb max_ticket_length (length (issue json)) ≡ false = ground (arith, short) in
      let some_text : is_nil (issue json) ≡ false =
        filled_text payload_part (dot ∷ sig_part) refl in
      let split = cut-append payload_part sig_part (plain json) in
      let has_code : is_nil code ≡ false = not_nil code (size payload_part) in
      let first : is_nil payload_part ≡ false = filled json ∙ full in
      let second : is_nil sig_part ≡ false = filled code ∙ has_code in
      let whole : (length code == 32) ≡ true = rw (size payload_part) refl in
      whole_text now (issue json) payload_part sig_part some_text long split
      ∙ accepted_parts now payload_part sig_part first second (plain code) (undo code) whole
      ∙ rw (undo json) refl
    where
      filled_text : (a b : Bytes) → is_nil b ≡ false → is_nil (a ++ b) ≡ false
      filled_text [] b h = h
      filled_text (c ∷ a) b h = refl

      not_nil : (x : Bytes) → length x ≡ 32 → is_nil x ≡ false
      not_nil [] h = absurd (omega (arith, h))
      not_nil (c ∷ x) h = refl

module _ (hmac : Bytes → Bytes) (decode : Bytes → Option Bytes)
    (parse : Bytes → Option Payload) where
  -- The payload of a text that is signed, whatever the time.
  abbrev opened_parts : Bytes → Bytes → Option Payload
  opened_parts a b =
      if is_nil a || is_nil b || has_dot b
      then none
      else if not (signed hmac decode parse a b)
      then none
      else open_payload hmac decode parse a

  abbrev opened : Bytes → Option Payload
  opened raw =
      if is_nil raw || ltb max_ticket_length (length raw)
      then none
      else elim (cut raw) [ none ↦ none | some parts ↦ opened_parts parts.0 parts.1 ]

  abbrev read_at : ℕ → Option Payload → Option Ticket
  read_at now none = none
  read_at now (some p) = read_payload now p

  verify_parts-opened :
      (now : ℕ) (a b : Bytes)
      → verify_parts hmac decode parse now a b ≡ read_at now (opened_parts a b)
  unfolding verify_parts
  verify_parts-opened now a b = elim (Bool-cases (is_nil a || is_nil b || has_dot b)) [
    | inl e ↦ rw e refl
    | inr e ↦ elim (Bool-cases (signed hmac decode parse a b)) [
      | inr s ↦ rw (e, s) refl
      | inl s ↦ elim (Option-cases (open_payload hmac decode parse a)) [
        | inl n ↦ rw (e, s, n) refl
        | inr (p, n) ↦ rw (e, s, n) refl
      ]
    ]
  ]

  verify-opened :
      (now : ℕ) (raw : Bytes) → verify hmac decode parse now raw ≡ read_at now (opened raw)
  unfolding verify
  verify-opened now raw = elim (Bool-cases (is_nil raw || ltb max_ticket_length (length raw))) [
    | inl e ↦ rw e refl
    | inr e ↦ elim (Option-cases (cut raw)) [
      | inl n ↦ rw (e, n) refl
      | inr (parts, n) ↦ rw (e, n) (verify_parts-opened now parts.0 parts.1)
    ]
  ]

  read_at-window :
      (now later : ℕ) (o : Option Payload) {t : Ticket}
      → read_at now o ≡ some t
      → (expired_at later t.exp ≡ false → read_at later o ≡ some t)
        × (expired_at later t.exp ≡ true → read_at later o ≡ none)
  unfolding read_payload same_bytes
  read_at-window now later none h = cc
  read_at-window now later (some p) h =
      let g = read_payload-Granted now p h in
      (
        λ e.
            rw (g.version, g.service, g.uid, g.valid_uid, g.nonce, g.valid_nonce, g.exp, e)
              (rw (ap text_of g.uid, ap text_of g.nonce) refl),
        λ e. rw (g.version, g.service, g.uid, g.valid_uid, g.nonce, g.valid_nonce, g.exp, e) refl,
      )

  -- A ticket that is accepted at one time is accepted at any other at which its expiry is ahead of
  -- the clock less 30 seconds, and refused at every other time.
  pub verify-window :
      (now later : ℕ) (raw : Bytes) {t : Ticket}
      → verify hmac decode parse now raw ≡ some t
      → (expired_at later t.exp ≡ false → verify hmac decode parse later raw ≡ some t)
        × (expired_at later t.exp ≡ true → verify hmac decode parse later raw ≡ none)
  verify-window now later raw h =
      let (ahead, over) = read_at-window now later (opened raw) (sym (verify-opened now raw) ∙ h) in
      (λ e. verify-opened later raw ∙ ahead e, λ e. verify-opened later raw ∙ over e)
