-- ===== src/Monitor/Refresh.antt =====
-- Failures of a token refresh: normalizeOAuthRefreshFailure and authorizationRequired of
-- internal/monitor/service.go.
use gptshare.Base.{
  ◌≡◌, refl, sym, ◌∙◌, subst, Bool, true, false, ◌||◌, Option, none, some, if◌then◌else◌, arith,
  Bool-cases, inl, inr,
}
use mathlib.Core.Option.{some-injective}
use gptshare.Monitor.Types.{Code, Level, Kind, TypedError, PollResult}
use gptshare.Monitor.Judge.{
  is_authorization_required, is_credential_revoked, is_disabled, is_stable_ban_candidate,
}

abbrev is_permission_denied : Kind → Bool
is_permission_denied Kind.permission_denied = true
is_permission_denied _ = false

unfoldable pub authorization_required : Code → TypedError
authorization_required code = record {
  kind = Kind.authorization_required;
  evidence_code = code;
  level = Level.contract_verified;
  retryable = false;
  retry_after = 0;
  banned_candidate = false;
}

-- The switch on the kind and the evidence code; none is the empty code.
unfoldable pub refresh_code : Kind → Code → Option Code
refresh_code Kind.permission_denied Code.http_401 = some Code.oauth_refresh_unauthorized
refresh_code Kind.permission_denied Code.http_403 = some Code.oauth_refresh_forbidden
refresh_code kind Code.refresh_token_reused = some Code.oauth_refresh_token_reused
refresh_code kind Code.session_terminated = some Code.oauth_session_terminated
refresh_code Kind.credential_revoked code = some Code.oauth_refresh_token_invalid
refresh_code Kind.disabled code = some Code.oauth_refresh_token_invalid
refresh_code kind code = none

unfoldable pub with_code : PollResult → Option Code → PollResult
with_code p none = p
with_code p (some code) = record p { typed = some (authorization_required code); code = code }

unfoldable pub normalize_refresh : PollResult → TypedError → PollResult
normalize_refresh p t =
    if t.retryable || is_authorization_required t.kind
    then p
    else with_code p (refresh_code t.kind t.evidence_code)

unfoldable pub normalize_oauth_refresh_failure : PollResult → PollResult
normalize_oauth_refresh_failure p = elim p.typed [ none ↦ p | some t ↦ normalize_refresh p t ]

-- What the switch does not name is neither a disabled account nor a revoked credential.
unnamed :
    (kind : Kind) (code : Code)
    → refresh_code kind code ≡ none
    → (is_disabled kind || is_credential_revoked kind) ≡ false
unfolding refresh_code
unnamed Kind.credential_revoked code h = absurd (ground (arith, h))
unnamed Kind.disabled code h = absurd (ground (arith, h))
unnamed Kind.permission_denied code h = refl
unnamed Kind.rate_limited code h = refl
unnamed Kind.upstream_transient code h = refl
unnamed Kind.contract_change code h = refl
unnamed Kind.authorization_required code h = refl
unnamed Kind.invalid_input code h = refl

abbrev Harmless : Kind → TypedError → Type 0
Harmless kind u =
    (is_stable_ban_candidate u ≡ false)
    × ((is_disabled kind || is_credential_revoked kind) ≡ true
        → is_authorization_required u.kind ≡ true)

requires_authorization : (kind : Kind) (code : Code) → Harmless kind (authorization_required code)
unfolding authorization_required is_stable_ban_candidate
requires_authorization kind code = (refl, λ h. refl)

kept-Harmless :
    (t : TypedError)
    → (is_disabled t.kind || is_credential_revoked t.kind) ≡ false
    → Harmless t.kind t
unfolding is_stable_ban_candidate
kept-Harmless t h = (ground (arith, h), λ named. absurd (ground (arith, h, named)))

switched :
    (p : PollResult) (t u : TypedError) (o : Option Code)
    → p.typed ≡ some t
    → (o ≡ none → (is_disabled t.kind || is_credential_revoked t.kind) ≡ false)
    → (with_code p o).typed ≡ some u
    → Harmless t.kind u
unfolding with_code
switched p t u none typed quiet h =
    subst (Harmless t.kind) (some-injective t u (sym typed ∙ h)) (kept-Harmless t (quiet refl))
switched p t u (some code) typed quiet h =
    subst (Harmless t.kind) (some-injective _ u h) (requires_authorization t.kind code)

-- After the normalization of a refresh result with an error that is not retryable, an error that
-- is left is no stable candidate for a ban, and it asks for a new authorization if the original
-- one was of a disabled account or a revoked credential.
pub normalize-no_ban :
    (p : PollResult) (t u : TypedError)
    → p.typed ≡ some t
    → t.retryable ≡ false
    → (normalize_oauth_refresh_failure p).typed ≡ some u
    → (is_stable_ban_candidate u ≡ false)
      × ((is_disabled t.kind || is_credential_revoked t.kind) ≡ true
          → is_authorization_required u.kind ≡ true)
unfolding normalize_oauth_refresh_failure normalize_refresh
normalize-no_ban p t u typed final h = elim (Bool-cases (is_authorization_required t.kind)) [
  | inl a ↦
      subst (Harmless t.kind)
        (some-injective t u (
          sym typed
          ∙ rw (typed, final, a, normalize_oauth_refresh_failure, normalize_refresh) at h))
        (kept-Harmless t (ground (arith, a)))
  | inr a ↦
      switched p t u (refresh_code t.kind t.evidence_code) typed (unnamed t.kind t.evidence_code)
        (rw (typed, final, a, normalize_oauth_refresh_failure, normalize_refresh) at h)
]
