-- ===== src/Examples/Tickets.antt =====
-- A bind ticket from its issue to the cleanup of its nonce.
use mathlib.Core.List.{Memᴰ}
use gptshare.Base.{ℕ, ◌+◌, ◌-◌, ◌≡◌, refl, ap, ◌∙◌, true, false, ◌==◌, Option, some, [], ◌∷◌, arith}
use gptshare.Time.{seconds, unix}
use gptshare.Pool.Types.{Db}
use gptshare.Pool.Redeem.Nonce.{is_spent}
use gptshare.Pool.Query.{purge_expired_bind_nonces}
use gptshare.Ticket.{
  Bytes, Ticket, Payload, ticket_version, ticket_service, dot, same_bytes, valid_nonce,
  valid_user_uid, has_dot, is_nil, expired_at, read_payload, verify,
}
use gptshare.Ticket.Sound.{Genuine, verify-Genuine}
use gptshare.Ticket.Issue.{issue, verify-issue}
use gptshare.Ticket.Nonces.{nonce_cleanup_cutoff, purge-keeps}
use gptshare.Examples.Shop.{noon, shop}

-- An encoding that keeps clear of the separator.
abbrev encode : Bytes → Bytes
encode [] = []
encode (c ∷ cs) = (c + 100) ∷ encode cs

abbrev lowered : Bytes → Bytes
lowered [] = []
lowered (c ∷ cs) = (c - 100) ∷ lowered cs

abbrev decode : Bytes → Option Bytes
decode x = some (lowered x)

lowered-encode : (x : Bytes) → lowered (encode x) ≡ x
lowered-encode [] = refl
lowered-encode (c ∷ cs) =
    let same : c + 100 - 100 ≡ c = omega arith in rw (same, lowered-encode cs) refl

encode-plain : (x : Bytes) → has_dot (encode x) ≡ false
encode-plain [] = refl
encode-plain (c ∷ cs) =
    let rest = encode-plain cs in
    let other : (c + 100 == dot) ≡ false = ground arith in rw (other, rest) refl

encode-nil : (x : Bytes) → is_nil (encode x) ≡ is_nil x
encode-nil [] = refl
encode-nil (c ∷ cs) = refl

abbrev code : Bytes
code =
    1 ∷ 1 ∷ 1 ∷ 1 ∷ 1 ∷ 1 ∷ 1 ∷ 1 ∷ 1 ∷ 1 ∷ 1 ∷ 1 ∷ 1 ∷ 1 ∷ 1 ∷ 1 ∷ 1 ∷ 1 ∷ 1 ∷ 1 ∷ 1 ∷ 1 ∷ 1 ∷ 1
    ∷ 1 ∷ 1 ∷ 1 ∷ 1 ∷ 1 ∷ 1 ∷ 1 ∷ 1 ∷ []

abbrev hmac : Bytes → Bytes
hmac x = code

abbrev nonce : Bytes
nonce =
    97 ∷ 97 ∷ 97 ∷ 97 ∷ 97 ∷ 97 ∷ 97 ∷ 97 ∷ 97 ∷ 97 ∷ 97 ∷ 97 ∷ 97 ∷ 97 ∷ 97 ∷ 97 ∷ 97 ∷ 97 ∷ 97
    ∷ 97 ∷ 97 ∷ 97 ∷ []

-- One minute after noon.
abbrev expiry : ℕ
expiry = unix (noon + seconds 60)

abbrev payload : Payload
payload = record {
  v = some ticket_version;
  svc = some ticket_service;
  uid = some (117 ∷ 49 ∷ []);
  nonce = some nonce;
  exp = some expiry;
}

abbrev parse : Bytes → Option Payload
parse json = some payload

abbrev ticket : Ticket
ticket = record { user_uid = 117 ∷ 49 ∷ []; nonce = nonce; exp = expiry }

abbrev raw : Bytes
raw = issue hmac decode encode parse (7 ∷ 8 ∷ [])

verify-issue_example : verify hmac decode parse noon raw ≡ read_payload noon payload
verify-issue_example =
    verify-issue hmac decode encode parse noon (7 ∷ 8 ∷ []) (λ x. ap some (lowered-encode x))
      encode-plain encode-nil (λ x. refl) refl (omega arith)

raw-accepted : verify hmac decode parse noon raw ≡ some ticket
unfolding read_payload same_bytes valid_nonce valid_user_uid expired_at unix
raw-accepted = accepted ∙ refl
  where
    accepted : verify hmac decode parse noon raw ≡ read_payload noon payload
    accepted =
        verify-issue hmac decode encode parse noon (7 ∷ 8 ∷ []) (λ x. ap some (lowered-encode x))
          encode-plain encode-nil (λ x. refl) refl (omega arith)

verify-Genuine_example : Genuine hmac decode parse noon raw ticket
verify-Genuine_example = verify-Genuine hmac decode parse noon raw raw-accepted

abbrev spent_shop : Db
spent_shop = record shop { nonces = (77, expiry) ∷ [] }

purge-keeps_example :
    is_spent 77 (purge_expired_bind_nonces (nonce_cleanup_cutoff noon) spent_shop).0 ≡ true
purge-keeps_example =
    purge-keeps hmac decode parse noon noon 77 raw spent_shop (omega arith) raw-accepted
      (Memᴰ.head refl)
