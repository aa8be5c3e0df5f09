-- ===== src/Ticket/Sound.antt =====
-- What a ticket that Verify accepts consists of, and for how long it is accepted.
use gptshare.Base.{
  ℕ, ◌≤◌, ◌≡◌, refl, sym, ap, subst, true, false, ◌&&◌, ◌||◌, Option, none, some, [], ◌∷◌, ◌++◌,
  ltb, ◌==◌, ==_iff, length, arith, Bool-cases, Option-cases, inl, inr,
}
use mathlib.Core.Option.{some-injective}
use gptshare.Ticket.{
  Bytes, Ticket, Payload, same_bytes, valid_nonce, valid_user_uid, cut, has_dot, is_nil, dot,
  ticket_version, ticket_service, max_ticket_length, expired_at, read_payload, signed, open_payload,
  verify_parts, verify,
}

pub same_bytes-eq : (x y : Bytes) → same_bytes x y ≡ true → x ≡ y
unfolding same_bytes
same_bytes-eq [] [] h = refl
same_bytes-eq [] (y ∷ ys) h = cc
same_bytes-eq (x ∷ xs) [] h = cc
same_bytes-eq (x ∷ xs) (y ∷ ys) h =
    let tail = same_bytes-eq xs ys (ground arith) in
    let head : x ≡ y = ground arith in rw (head, tail) refl

pub cut-parts :
    (raw : Bytes) {parts : Bytes × Bytes} → cut raw ≡ some parts → raw ≡ parts.0 ++ dot ∷ parts.1
unfolding cut
cut-parts [] h = cc
cut-parts (c ∷ cs) {parts} h = elim (Bool-cases (c == dot)) [
  | inl e ↦
      (let same : ([], cs) ≡ parts = some-injective _ _ (rw e at h) in
        subst (λ (q : Bytes × Bytes). c ∷ cs ≡ q.0 ++ dot ∷ q.1) same
          (ap (λ x. x ∷ cs) ((==_iff c dot).0 e)))
  | inr e ↦ elim (Option-cases (cut cs)) [
    | inl n ↦ absurd (ground (arith, e, n, h))
    | inr (p, n) ↦
        (let same : (c ∷ p.0, p.1) ≡ parts = some-injective _ _ (rw (e, n) at h) in
          subst (λ (q : Bytes × Bytes). c ∷ cs ≡ q.0 ++ dot ∷ q.1) same
            (ap (λ r. c ∷ r) (cut-parts cs n)))
  ]
]

-- The members of a payload that became a ticket.
pub record Granted (now : ℕ) (p : Payload) (t : Ticket) : Type 0 where
  pub version : p.v ≡ some ticket_version
  pub service : p.svc ≡ some ticket_service
  pub uid : p.uid ≡ some t.user_uid
  pub nonce : p.nonce ≡ some t.nonce
  pub exp : p.exp ≡ some t.exp
  pub valid_uid : valid_user_uid t.user_uid ≡ true
  pub valid_nonce : valid_nonce t.nonce ≡ true
  pub unexpired : expired_at now t.exp ≡ false

abbrev payload_of : Option ℕ → Option Bytes → Option Bytes → Option Bytes → Option ℕ → Payload
payload_of v svc uid nonce exp = record { v = v; svc = svc; uid = uid; nonce = nonce; exp = exp }

fields-Granted :
    (now : ℕ) (v : Option ℕ) (svc uid nonce : Option Bytes) (exp : Option ℕ) {t : Ticket}
    → read_payload now (payload_of v svc uid nonce exp) ≡ some t
    → Granted now (payload_of v svc uid nonce exp) t
unfolding read_payload
fields-Granted now none svc uid number exp h = absurd (ground (arith, h))
fields-Granted now (some v) none uid number exp h = absurd (ground (arith, h))
fields-Granted now (some v) (some svc) none number exp h = absurd (ground (arith, h))
fields-Granted now (some v) (some svc) (some uid) none exp h = absurd (ground (arith, h))
fields-Granted now (some v) (some svc) (some uid) (some number) none h = absurd (ground (arith, h))
fields-Granted now (some v) (some svc) (some uid) (some number) (some exp) {t} h =
    let checks =
      v == ticket_version
      && same_bytes ticket_service svc
      && valid_user_uid uid
      && valid_nonce number in
    elim (Bool-cases checks) [
      | inr e ↦ absurd (ground (arith, e, h))
      | inl e ↦ elim (Bool-cases (expired_at now exp)) [
        | inl x ↦ absurd (ground (arith, e, x, h))
        | inr x ↦
            let made : Ticket = record { user_uid = uid; nonce = number; exp = exp } in
            let same : made ≡ t = some-injective made t (rw (e, x) at h) in
            subst (Granted now (payload_of (some v) (some svc) (some uid) (some number) (some exp)))
              same
              (record {
                version = ap some ((==_iff v ticket_version).0 (ground (arith, e)));
                service = ap some (sym (same_bytes-eq ticket_service svc (ground (arith, e))));
                uid = refl;
                nonce = refl;
                exp = refl;
                valid_uid = ground (arith, e);
                valid_nonce = ground (arith, e);
                unexpired = x;
              })
      ]
    ]

pub read_payload-Granted :
    (now : ℕ) (p : Payload) {t : Ticket} → read_payload now p ≡ some t → Granted now p t
read_payload-Granted now p h = fields-Granted now p.v p.svc p.uid p.nonce p.exp h

module _ (hmac : Bytes → Bytes) (decode : Bytes → Option Bytes)
    (parse : Bytes → Option Payload) where
  -- What a text that was accepted consists of.
  pub record Genuine (now : ℕ) (raw : Bytes) (t : Ticket) : Type 0 where
    pub payload_part : Bytes
    pub sig_part : Bytes
    pub json : Bytes
    pub payload : Payload
    pub text : raw ≡ payload_part ++ dot ∷ sig_part
    pub short : length raw ≤ max_ticket_length
    pub signature : decode sig_part ≡ some (hmac payload_part)
    pub decoded : decode payload_part ≡ some json
    pub parsed : parse json ≡ some payload
    pub granted : Granted now payload t

  signed-eq : (a b : Bytes) → signed hmac decode parse a b ≡ true → decode b ≡ some (hmac a)
  unfolding signed
  signed-eq a b h = elim (Option-cases (decode b)) [
    | inl n ↦ absurd (ground (arith, n, h))
    | inr (x, n) ↦
        (let same : hmac a ≡ x = same_bytes-eq (hmac a) x (ground (arith, n, h)) in rw same n)
  ]

  verify_parts-Genuine :
      (now : ℕ) (raw a b : Bytes) {t : Ticket}
      → raw ≡ a ++ dot ∷ b
      → length raw ≤ max_ticket_length
      → verify_parts hmac decode parse now a b ≡ some t
      → Genuine now raw t
  unfolding verify_parts open_payload
  verify_parts-Genuine now raw a b {t} text short h =
      elim (Bool-cases (is_nil a || is_nil b || has_dot b)) [
        | inl e ↦ absurd (ground (arith, e, h))
        | inr e ↦ elim (Bool-cases (signed hmac decode parse a b)) [
          | inr s ↦ absurd (ground (arith, e, s, h))
          | inl s ↦ elim (Option-cases (decode a)) [
            | inl n ↦ absurd (ground (arith, e, s, n, h))
            | inr (json, n) ↦ elim (Option-cases (parse json)) [
              | inl m ↦ absurd (ground (arith, e, s, n, m, h))
              | inr (p, m) ↦ record {
                payload_part = a;
                sig_part = b;
                json = json;
                payload = p;
                text = text;
                short = short;
                signature = signed-eq a b s;
                decoded = n;
                parsed = m;
                granted = read_payload-Granted now p (rw (e, s, n, m) at h);
              }
            ]
          ]
        ]
      ]

  -- A text that is accepted is short enough, splits into a payload and the signature of that
  -- payload under the service's key, and the payload names the version, the service, and a user, nonce
  -- and expiry in their formats that are those of the ticket, not yet over.
  pub verify-Genuine :
      (now : ℕ) (raw : Bytes) {t : Ticket}
      → verify hmac decode parse now raw ≡ some t
      → Genuine now raw t
  unfolding verify
  verify-Genuine now raw h = elim (Bool-cases (is_nil raw || ltb max_ticket_length (length raw))) [
    | inl e ↦ absurd (ground (arith, e, h))
    | inr e ↦ elim (Option-cases (cut raw)) [
      | inl n ↦ absurd (ground (arith, e, n, h))
      | inr (parts, n) ↦
          verify_parts-Genuine now raw parts.0 parts.1 (cut-parts raw n) (ground (arith, e))
            (rw (e, n) at h)
    ]
  ]
