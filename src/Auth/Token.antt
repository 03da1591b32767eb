-- ===== src/Auth/Token.antt =====
-- `TokenManager::get_token` of src/auth.rs, with the session of src/auth/session.rs. Times are seconds
-- since the epoch, and a lifetime is below 2 ^ 63, so that `as i64` keeps it.
pub mod Renewal
use microsoft_defender_mcp.Prelude.{
  ℕ, zero, suc, ◌+◌, ◌-◌, ◌*◌, ◌/◌, ◌%◌, ◌≤◌, ◌<◌, String, ◌≡◌, refl, sym, ap, ◌∙◌, ◌≢◌, ◌↔◌, ◌⊎◌,
  inl, inr, Bool, true, false, ◌&&◌, ◌||◌, not, Option, none, some, List, [], ◌∷◌, ◌++◌, map,
  append-nil, append_assoc, arith, str_eq, eq_iff, ltb, leb, ◌==◌, if◌then◌else◌, ==_iff, leb→le,
  Bool-cases, Option-cases, Result, ok, err, refuse, map_err, is_ok, ok_or, unwrap_or, length, take,
  any, all, is_empty, All, Any, length-append, All-append, any-eq-false_iff, all-eq-true_iff,
  All-map,
}
use microsoft_defender_mcp.Constants.{token_expiry_buffer_secs}
use microsoft_defender_mcp.Error.{tool_error, reauthentication_required, consent_missing}
use microsoft_defender_mcp.Json.{CallToolResult}
use microsoft_defender_mcp.Text.{Text, lit, text_eq}

pub data Audience : Type 0 where
  endpoint graph : Audience

unfoldable pub audience_str : Audience → String
audience_str endpoint = "endpoint"
audience_str graph = "graph"

pub data ReauthReason : Type 0 where
  session_expired mfa_required interaction_required session_revoked conditional_access :
      ReauthReason

unfoldable pub reauth_str : ReauthReason → String
reauth_str session_expired = "session_expired"
reauth_str mfa_required = "mfa_required"
reauth_str interaction_required = "interaction_required"
reauth_str session_revoked = "session_revoked"
reauth_str conditional_access = "conditional_access"

pub data ConsentState : Type 0 where
  granted : (scopes : List Text) (expires_at : ℕ) → ConsentState
  missing : (aadsts : Option ℕ) → ConsentState

pub record CachedToken : Type 0 where
  pub token : Text
  pub expires_at : ℕ

unfoldable pub is_valid : (now : ℕ) → CachedToken → Bool
is_valid now t = ltb (now + token_expiry_buffer_secs) t.expires_at

-- A map keyed by audience.
pub record PerAudience (A : Type 0) : Type 0 where
  pub at_endpoint : Option A
  pub at_graph : Option A

abbrev pub get_for : {A : Type 0} → Audience → PerAudience A → Option A
get_for endpoint m = m.at_endpoint
get_for graph m = m.at_graph

abbrev pub insert_for : {A : Type 0} → Audience → A → PerAudience A → PerAudience A
insert_for endpoint a m = record m { at_endpoint = some a }
insert_for graph a m = record m { at_graph = some a }

-- The parts of the session that acquiring tokens reads and changes.
pub record DelegatedSession : Type 0 where
  pub refresh_token : Text
  pub consent : PerAudience ConsentState
  pub reauth : Option ReauthReason

-- `OnceLock::set`: the first reason is kept.
unfoldable pub set_reauth : ReauthReason → DelegatedSession → DelegatedSession
set_reauth r s = elim s.reauth [ none ↦ record s { reauth = some r } | some _ ↦ s ]

abbrev pub set_consent : Audience → ConsentState → DelegatedSession → DelegatedSession
set_consent a c s = record s { consent = insert_for a c s.consent }

pub data Credential : Type 0 where
  client_secret : (secret : Text) → Credential
  delegated : DelegatedSession → Credential

pub record TokenManager : Type 0 where
  pub credential : Credential
  pub cache : PerAudience CachedToken

pub record TokenEndpointError : Type 0 where
  pub error : Text
  pub aadsts : Option ℕ

pub data RefreshTokenError : Type 0 where
  endpoint_error : TokenEndpointError → RefreshTokenError
  -- A network failure, or an answer that cannot be read.
  other_error : (message : Text) → RefreshTokenError

pub record RefreshTokenSuccess : Type 0 where
  pub access_token : Text
  pub expires_in : ℕ
  pub refresh_token : Option Text

-- What one call meets: the clock, when it checks the cache and when the answer is there, and the
-- token endpoint, whose errors come with their text.
pub record TokenEndpoint : Type 0 where
  pub now : ℕ
  pub later : ℕ
  pub fetch_app_token : Audience → Result CachedToken Text
  pub refresh_token_grant :
      (refresh_token : Text) (scopes : List Text) → Result RefreshTokenSuccess RefreshTokenError
  pub show_error : RefreshTokenError → Text

abbrev pub has_code : ℕ → Option ℕ → Bool
has_code n none = false
has_code n (some c) = c == n

-- What a refused refresh asks for.
pub data Refusal : Type 0 where
  needs_reauth : ReauthReason → Refusal
  needs_consent : Refusal
  failed : Refusal

abbrev pub invalid_grant : Option ℕ → Refusal
invalid_grant aadsts =
    if has_code 700082 aadsts || has_code 70043 aadsts || has_code 50173 aadsts
    then needs_reauth session_expired
    else if has_code 50076 aadsts || has_code 50079 aadsts
    then needs_reauth mfa_required
    else if has_code 65001 aadsts
    then needs_consent
    else needs_reauth session_revoked

unfoldable pub refusal_of : RefreshTokenError → Refusal
refusal_of (other_error m) = failed
refusal_of (endpoint_error e) =
    if text_eq e.error (lit "invalid_grant")
    then invalid_grant e.aadsts
    else if text_eq e.error (lit "interaction_required")
    then needs_reauth interaction_required
    else failed

-- A result, the state that it leaves, and how many requests were made for it.
abbrev pub Outcome : Type 0
Outcome = Result Text CallToolResult × TokenManager × ℕ

module _ (scopes : Audience → List Text) (env : TokenEndpoint) (audience : Audience) where
  abbrev pub without_consent : CallToolResult
  without_consent = consent_missing (audience_str audience) (scopes audience)

  abbrev pub consent_check : Option ConsentState → Option CallToolResult
  consent_check (some (missing _)) = some without_consent
  consent_check _ = none

  abbrev pub session_check : Credential → Option CallToolResult
  session_check (client_secret _) = none
  session_check (delegated s) = elim s.reauth [
    | some reason ↦ some (reauthentication_required (reauth_str reason))
    | none ↦ consent_check (get_for audience s.consent)
  ]

  abbrev pub cached_check : Option CachedToken → Option Text
  cached_check none = none
  cached_check (some c) = if is_valid env.now c then some c.token else none

  -- The checks before the lock is taken, and again after: a refusal or a cached token, if any.
  unfoldable pub answered : TokenManager → Option (Result Text CallToolResult)
  unfolding is_valid
  answered m = elim (session_check m.credential) [
    | some refusal ↦ some (err refusal)
    | none ↦ elim (cached_check (get_for audience m.cache)) [ none ↦ none | some t ↦ some (ok t) ]
  ]

  abbrev pub rotated : Option Text → DelegatedSession → DelegatedSession
  rotated none s = s
  rotated (some token) s = record s { refresh_token = token }

  abbrev pub store : CachedToken → Credential → TokenManager → Outcome
  store c credential m =
      (ok c.token, record { credential = credential; cache = insert_for audience c m.cache }, 1)

  unfoldable pub refuse_refresh :
      RefreshTokenError → Refusal → DelegatedSession → TokenManager → Outcome
  unfolding set_reauth
  refuse_refresh e (needs_reauth r) s m = (
    err (reauthentication_required (reauth_str r)),
    record m { credential = delegated (set_reauth r s) },
    1,
  )
  refuse_refresh e needs_consent s m = (
    err without_consent,
    record m { credential = delegated (set_consent audience (missing (some 65001)) s) },
    1,
  )
  refuse_refresh e failed s m =
      (err (tool_error (lit "Token refresh failed: " ++ env.show_error e)), m, 1)

  abbrev pub renew_app : Result CachedToken Text → Credential → TokenManager → Outcome
  renew_app (ok c) credential m = store c credential m
  renew_app (err e) credential m = (err (tool_error (lit "Auth error: " ++ e)), m, 1)

  unfoldable pub renew_session :
      Result RefreshTokenSuccess RefreshTokenError → DelegatedSession → TokenManager → Outcome
  unfolding refusal_of refuse_refresh
  renew_session (ok success) s m =
      store (record { token = success.access_token; expires_at = env.later + success.expires_in })
        (delegated (rotated success.refresh_token s)) m
  renew_session (err e) s m = refuse_refresh e (refusal_of e) s m

  unfoldable pub renew_with : Credential → TokenManager → Outcome
  unfolding renew_session
  renew_with (client_secret secret) m =
      renew_app (env.fetch_app_token audience) (client_secret secret) m
  renew_with (delegated s) m =
      renew_session (env.refresh_token_grant s.refresh_token (scopes audience)) s m

  -- What a caller does once it holds the refresh lock.
  unfoldable pub locked : TokenManager → Outcome
  unfolding answered renew_with
  locked m = elim (answered m) [ some r ↦ (r, m, 0) | none ↦ renew_with m.credential m ]

  -- A call whose checks before the lock see the state `before`, and that holds the lock in the state
  -- `m`: between the two, other callers may have changed it.
  unfoldable pub get_token : (before m : TokenManager) → Outcome
  unfolding answered locked
  get_token before m = elim (answered before) [ some r ↦ (r, m, 0) | none ↦ locked m ]
