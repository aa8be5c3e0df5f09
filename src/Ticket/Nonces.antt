-- ===== src/Ticket/Nonces.antt =====
-- How long a spent nonce is kept: NonceCleanupCutoff of allocation-service/internal/usercenter/service.go and
-- the deletion of PurgeExpiredBindNonces, against the time for which Verify accepts a ticket.
use gptshare.Base.{
  ℕ, ◌-◌, ◌≤◌, ◌≡◌, refl, subst, Bool, true, false, not, some, List, [], ◌∷◌, ltb, ◌==◌,
  if◌then◌else◌, where_rows, exists_where, arith, inl, inr, Option,
}
use mathlib.Core.List.Memᴰ
use mathlib.Core.List.{Memᴰ}
use gptshare.Time.{seconds, unix}
use gptshare.Pool.Types.{Db}
use gptshare.Pool.Query.{purge_expired_bind_nonces}
use gptshare.Pool.Redeem.Nonce.{is_spent}
use gptshare.Ticket.{Bytes, Ticket, Payload, expired_at, verify}
use gptshare.Ticket.Sound.{verify-Genuine}

-- NonceCleanupCutoff, with nonceRetention of five minutes.
unfoldable pub nonce_cleanup_cutoff : ℕ → ℕ
nonce_cleanup_cutoff now = unix (now - seconds 300)

kept :
    (nonce exp cutoff : ℕ) (rows : List (ℕ × ℕ))
    → Memᴰ (nonce, exp) rows
    → cutoff ≤ exp
    → exists_where (λ n. n.0 == nonce) (where_rows (λ n. not (ltb n.1 cutoff)) rows) ≡ true
kept nonce exp cutoff [] m late = absurd (Memᴰ.not-nil m)
kept nonce exp cutoff (x ∷ rows) m late = elim (Memᴰ.cases_cons m) [
  | inl same ↦
      subst
        (λ (y : ℕ × ℕ).
          exists_where (λ n. n.0 == nonce) (where_rows (λ n. not (ltb n.1 cutoff)) (y ∷ rows))
          ≡ true)
        same (this_one (ltb exp cutoff) refl)
  | inr later ↦ carried (ltb x.1 cutoff) (kept nonce exp cutoff rows later late)
]
  where
    this_one :
        (b : Bool)
        → ltb exp cutoff ≡ b
        → exists_where
            (λ n. n.0 == nonce)
            (where_rows (λ n. not (ltb n.1 cutoff)) ((nonce, exp) ∷ rows))
          ≡ true
    this_one true h = absurd (ground (arith, h, late))
    this_one false h = ground (arith, h)

    carried :
        (b : Bool)
        → exists_where (λ n. n.0 == nonce) (where_rows (λ n. not (ltb n.1 cutoff)) rows) ≡ true
        → exists_where
            (λ n. n.0 == nonce)
            (if not b
              then x ∷ where_rows (λ n. not (ltb n.1 cutoff)) rows
              else where_rows (λ n. not (ltb n.1 cutoff)) rows)
          ≡ true
    carried true h = h
    carried false h = ground (arith, h)

later_expiry :
    (now later exp : ℕ)
    → now ≤ later
    → expired_at later exp ≡ false
    → nonce_cleanup_cutoff now ≤ exp
unfolding expired_at nonce_cleanup_cutoff unix
later_expiry now later exp h e = ground (arith, h, e)

-- A nonce that was spent with the expiry of a ticket is still spent after a cleanup, if the ticket
-- is accepted at the time of the cleanup or at any later time.
pub purge-keeps :
    (hmac : Bytes → Bytes) (decode : Bytes → Option Bytes) (parse : Bytes → Option Payload)
    (now later nonce : ℕ) (raw : Bytes) (db : Db) {t : Ticket}
    → now ≤ later
    → verify hmac decode parse later raw ≡ some t
    → Memᴰ (nonce, t.exp) db.nonces
    → is_spent nonce (purge_expired_bind_nonces (nonce_cleanup_cutoff now) db).0 ≡ true
unfolding purge_expired_bind_nonces
purge-keeps hmac decode parse now later nonce raw db {t} h accepted m =
    let g = verify-Genuine hmac decode parse later raw accepted in
    kept nonce t.exp (nonce_cleanup_cutoff now) db.nonces m
      (later_expiry now later t.exp h g.granted.unexpired)
