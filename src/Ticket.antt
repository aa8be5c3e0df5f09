-- ===== src/Ticket.antt =====
-- Bind tickets of the user center: Verifier.Verify, validNonce and validUserUID of
-- allocation-service/internal/usercenter/ticket.go. Texts are lists of bytes. HMAC-SHA256, strict
-- base64url without padding and the JSON decoder are parameters; a negative number in the JSON text
-- counts as 0.
pub mod Issue
pub mod Sound
pub mod Nonces
use gptshare.Base.{
  ℕ, zero, suc, ◌+◌, ◌-◌, Bool, true, false, not, ◌&&◌, ◌||◌, Option, none, some, List, [], ◌∷◌,
  leb, ltb, ◌==◌, if◌then◌else◌, length, exists_where,
}
use gptshare.Time.{seconds, unix}

abbrev pub Bytes : Type 0
Bytes = List ℕ

-- TicketVersion, TicketService, maxTicketLength, nonceLength, maxUserUIDBytes.
abbrev pub ticket_version : ℕ
ticket_version = 1

abbrev pub ticket_service : Bytes
ticket_service = 115 ∷ 104 ∷ 97 ∷ 114 ∷ 101 ∷ 103 ∷ 112 ∷ 116 ∷ []

abbrev pub max_ticket_length : ℕ
max_ticket_length = 2048

abbrev pub nonce_length : ℕ
nonce_length = 22

abbrev pub max_user_uid_bytes : ℕ
max_user_uid_bytes = 128

-- The separator.
abbrev pub dot : ℕ
dot = 46

pub record Ticket : Type 0 where
  pub user_uid : Bytes
  pub nonce : Bytes
  pub exp : ℕ

-- ticketPayload, whose pointers are nil for a missing member.
pub record Payload : Type 0 where
  pub v : Option ℕ
  pub svc : Option Bytes
  pub uid : Option Bytes
  pub nonce : Option Bytes
  pub exp : Option ℕ

unfoldable pub same_bytes : Bytes → Bytes → Bool
same_bytes [] [] = true
same_bytes [] (y ∷ ys) = false
same_bytes (x ∷ xs) [] = false
same_bytes (x ∷ xs) (y ∷ ys) = x == y && same_bytes xs ys

abbrev between : ℕ → ℕ → ℕ → Bool
between low high c = leb low c && leb c high

-- a-z A-Z 0-9 - _
abbrev pub nonce_char : ℕ → Bool
nonce_char c = between 97 122 c || between 65 90 c || between 48 57 c || c == 45 || c == 95

-- . and : as well.
abbrev pub uid_char : ℕ → Bool
uid_char c = nonce_char c || c == dot || c == 58

abbrev pub all_of : (ℕ → Bool) → Bytes → Bool
all_of p [] = true
all_of p (c ∷ cs) = p c && all_of p cs

unfoldable pub valid_nonce : Bytes → Bool
valid_nonce value = length value == nonce_length && all_of nonce_char value

unfoldable pub valid_user_uid : Bytes → Bool
valid_user_uid value =
    not (length value == 0 || ltb max_user_uid_bytes (length value)) && all_of uid_char value

-- strings.Cut at the first separator.
unfoldable pub cut : Bytes → Option (Bytes × Bytes)
cut [] = none
cut (c ∷ cs) =
    let rest = cut cs in
    if c == dot then some ([], cs) else elim rest [ none ↦ none | some p ↦ some (c ∷ p.0, p.1) ]

abbrev pub has_dot : Bytes → Bool
has_dot = exists_where (λ c. c == dot)

abbrev pub is_nil : Bytes → Bool
is_nil [] = true
is_nil (c ∷ cs) = false

abbrev pub holds : Option Bytes → (Bytes → Bool) → Bool
holds none p = false
holds (some x) p = p x

abbrev is_version : Option ℕ → Bool
is_version none = false
is_version (some n) = n == ticket_version

-- exp <= now - ClockSkew
unfoldable pub expired_at : ℕ → ℕ → Bool
expired_at now exp = leb exp (unix (now - seconds 30))

abbrev pub text_of : Option Bytes → Bytes
text_of none = []
text_of (some x) = x

-- The checks of the payload's members and of the expiry.
unfoldable pub read_payload : ℕ → Payload → Option Ticket
read_payload now p =
    if is_version p.v
      && holds p.svc (same_bytes ticket_service)
      && holds p.uid valid_user_uid
      && holds p.nonce valid_nonce
    then elim p.exp [
      | none ↦ none
      | some exp ↦
          if expired_at now exp
          then none
          else some (record { user_uid = text_of p.uid; nonce = text_of p.nonce; exp = exp })
    ]
    else none

module _ (hmac : Bytes → Bytes) (decode : Bytes → Option Bytes)
    (parse : Bytes → Option Payload) where
  -- The signature's part decodes to the 32 bytes of the code of the payload's part.
  unfoldable pub signed : Bytes → Bytes → Bool
  signed payload_part sig_part = elim (decode sig_part) [
    | none ↦ false
    | some signature ↦ length signature == 32 && same_bytes (hmac payload_part) signature
  ]

  unfoldable pub open_payload : Bytes → Option Payload
  open_payload payload_part = elim (decode payload_part) [ none ↦ none | some json ↦ parse json ]

  unfoldable pub verify_parts : ℕ → Bytes → Bytes → Option Ticket
  verify_parts now payload_part sig_part =
      if is_nil payload_part || is_nil sig_part || has_dot sig_part
      then none
      else if not (signed payload_part sig_part)
      then none
      else elim (open_payload payload_part) [ none ↦ none | some p ↦ read_payload now p ]

  -- Verify; every failure is ErrTicketInvalid.
  unfoldable pub verify : ℕ → Bytes → Option Ticket
  verify now raw =
      if is_nil raw || ltb max_ticket_length (length raw)
      then none
      else elim (cut raw) [ none ↦ none | some parts ↦ verify_parts now parts.0 parts.1 ]
