-- ===== src/Auth/Token/Renewal.antt =====
-- How tokens are renewed, and when not.
use microsoft_defender_mcp.Prelude.{
  Result-cases, ◌+◌, ◌<◌, ◌≡◌, refl, ◌≢◌, inl, inr, true, Option, none, some, List, arith,
  Bool-cases, Option-cases, Result, ok, err,
}
use microsoft_defender_mcp.Auth.Token.{
  set_reauth, cached_check, renew_session, insert_for, refuse_refresh, renew_with, rotated, store,
  Credential, Outcome, PerAudience, Refusal, session_check, Audience, CachedToken, get_for,
  DelegatedSession, delegated, TokenManager, TokenEndpoint, RefreshTokenError, needs_reauth,
  needs_consent, failed, ReauthReason, reauth_str, refusal_of, answered, locked, get_token,
  is_valid, endpoint, graph, client_secret,
}
use microsoft_defender_mcp.Error.{reauthentication_required}
use microsoft_defender_mcp.Json.{CallToolResult}
use microsoft_defender_mcp.Text.{Text}

module _ (scopes : Audience → List Text) where
  -- Once the session of a signed-in user needs re-authentication, a call that checks it is refused
  -- with that reason at once, for every audience: it makes no request and leaves the state as it
  -- is.
  pub reauth_is_final :
      (env : TokenEndpoint) (a : Audience) (m : TokenManager) (s : DelegatedSession)
      (r : ReauthReason)
      → m.credential ≡ delegated s
      → s.reauth ≡ some r
      → get_token scopes env a m m ≡ (err (reauthentication_required (reauth_str r)), m, 0)
  unfolding get_token
  reauth_is_final env a m s r signed stopped = rw (signed, stopped) refl

  get_for-insert_for :
      {A : Type 0} (a : Audience) (v : A) (m : PerAudience A)
      → get_for a (insert_for a v m) ≡ some v
  get_for-insert_for endpoint v m = refl
  get_for-insert_for graph v m = refl

  module _ (env : TokenEndpoint) (a : Audience) where
    -- The state after a success: the token is in the cache, and the session is not refused.
    record Holds (t : Text) (m : TokenManager) : Type 0 where
      entry : CachedToken
      kept : get_for a m.cache ≡ some entry
      same : entry.token ≡ t
      open_session : session_check scopes env a m.credential ≡ none

    abbrev Good : Outcome → Type 0
    Good r = (t : Text) → r.0 ≡ ok t → Holds t r.1

    rotated_open :
        (rt : Option Text) (s : DelegatedSession)
        → session_check scopes env a (delegated s) ≡ none
        → session_check scopes env a (delegated (rotated scopes env a rt s)) ≡ none
    rotated_open none s h = h
    rotated_open (some t) s h = h

    store-Good :
        (c : CachedToken) (credential : Credential) (m : TokenManager)
        → session_check scopes env a credential ≡ none
        → Good (store scopes env a c credential m)
    store-Good c credential m h t e = record {
      entry = c;
      kept = get_for-insert_for a c m.cache;
      same = cc;
      open_session = h;
    }

    refused-Good :
        (why : RefreshTokenError) (r : Refusal) (s : DelegatedSession) (m : TokenManager)
        → Good (refuse_refresh scopes env a why r s m)
    unfolding refuse_refresh
    refused-Good why (needs_reauth r) s m t e = absurd (ground arith)
    refused-Good why needs_consent s m t e = absurd (ground arith)
    refused-Good why failed s m t e = absurd (ground arith)

    renew-Good :
        (credential : Credential) (m : TokenManager)
        → session_check scopes env a credential ≡ none
        → Good (renew_with scopes env a credential m)
    unfolding renew_with renew_session
    renew-Good (client_secret secret) m h = elim (Result-cases (env.fetch_app_token a)) [
      | inl (c, fetched) ↦ rw fetched (store-Good c (client_secret secret) m refl)
      | inr (why, refused) ↦ λ t e. absurd (ground arith)
    ]
    renew-Good (delegated s) m h =
        elim (Result-cases (env.refresh_token_grant s.refresh_token (scopes a))) [
          | inl (success, renewed) ↦ rw renewed (
              store-Good
                (record {
                  token = success.access_token;
                  expires_at = env.later + success.expires_in;
                })
                (delegated (rotated scopes env a success.refresh_token s)) m
                (rotated_open success.refresh_token s h))
          | inr (why, refused) ↦ rw refused (refused-Good why (refusal_of why) s m)
        ]

    locked_miss :
        (m : TokenManager)
        → session_check scopes env a m.credential ≡ none
        → cached_check scopes env a (get_for a m.cache) ≡ none
        → locked scopes env a m ≡ renew_with scopes env a m.credential m
    unfolding locked answered
    locked_miss m free missed = rw (locked, answered, free, missed) refl

    answered_hit :
        (m : TokenManager) (c : CachedToken)
        → session_check scopes env a m.credential ≡ none
        → get_for a m.cache ≡ some c
        → is_valid env.now c ≡ true
        → answered scopes env a m ≡ some (ok c.token)
    unfolding answered
    answered_hit m c free there fresh = rw (answered, free, there, fresh) refl

    locked_hit :
        (m : TokenManager) (r : Result Text CallToolResult)
        → answered scopes env a m ≡ some r
        → locked scopes env a m ≡ (r, m, 0)
    unfolding locked
    locked_hit m r known = rw (locked, known) refl

    blocked_lem :
        (m : TokenManager) (refusal : CallToolResult)
        → session_check scopes env a m.credential ≡ some refusal
        → (t : Text) → (locked scopes env a m).0 ≢ ok t
    unfolding locked answered
    blocked_lem m refusal blocked t = rw (locked, answered, blocked) (λ e. absurd (ground arith))

    renewed :
        (m : TokenManager)
        → session_check scopes env a m.credential ≡ none
        → cached_check scopes env a (get_for a m.cache) ≡ none
        → Good (locked scopes env a m)
    renewed m free missed = rw (locked_miss m free missed) (renew-Good m.credential m free)

    held :
        (m : TokenManager) (c : CachedToken)
        → session_check scopes env a m.credential ≡ none
        → get_for a m.cache ≡ some c
        → is_valid env.now c ≡ true
        → Good (locked scopes env a m)
    held m c free there fresh =
        rw (locked_hit m (ok c.token) (answered_hit m c free there fresh))
          λ t e. record { entry = c; kept = there; same = cc; open_session = free }

    locked-Good : (m : TokenManager) → Good (locked scopes env a m)
    locked-Good m t e = elim (Option-cases (session_check scopes env a m.credential)) [
      | inr (refusal, blocked) ↦ absurd (blocked_lem m refusal blocked t e)
      | inl free ↦ elim (Option-cases (get_for a m.cache)) [
        | inl empty ↦ renewed m free (rw empty refl) t e
        | inr (c, there) ↦ elim (Bool-cases (is_valid env.now c)) [
          | inl fresh ↦ held m c free there fresh t e
          | inr stale ↦ renewed m free (rw (there, stale) refl) t e
        ]
      ]
    ]

  shared :
      (next : TokenEndpoint) (a : Audience) (before m : TokenManager) (t : Text) (c : CachedToken)
      → get_for a m.cache ≡ some c
      → c.token ≡ t
      → session_check scopes next a m.credential ≡ none
      → next.now + 60 < c.expires_at
      → answered scopes next a before ≡ none
      → get_token scopes next a before m ≡ (ok t, m, 0)
  unfolding get_token is_valid
  shared next a before m t c there same free fresh waited =
      rw
        (
          get_token,
          waited,
          locked_hit next a m (ok c.token) (answered_hit next a m c free there (ground arith)),
          same,
        )
        refl

  -- A renewed token is shared: after a call that got a token while it held the lock, the token is
  -- in the cache, and a caller that went on to the lock because it found nothing before gets the
  -- same one without a request, if the token does not expire within 60 seconds of its check.
  pub renewal_is_shared :
      (env : TokenEndpoint) (a : Audience) (m : TokenManager) (t : Text)
      → (locked scopes env a m).0 ≡ ok t
      → (c : CachedToken) × (get_for a (locked scopes env a m).1.cache ≡ some c)
        × (c.token ≡ t)
        × ((next : TokenEndpoint) (before : TokenManager)
            → next.now + 60 < c.expires_at
            → answered scopes next a before ≡ none
            → get_token scopes next a before (locked scopes env a m).1
              ≡ (ok t, (locked scopes env a m).1, 0))
  renewal_is_shared env a m t h =
      let good = locked-Good env a m t h in
      (
        good.entry,
        good.kept,
        good.same,
        λ next before fresh waited.
            shared next a before (locked scopes env a m).1 t good.entry good.kept good.same
              good.open_session fresh waited,
      )

  reauth_of-set_reauth :
      (r : ReauthReason) (s : DelegatedSession) → s.reauth ≡ none → (set_reauth r s).reauth ≡ some r
  unfolding set_reauth
  reauth_of-set_reauth r s h = rw (set_reauth, h) refl

  open_reauth :
      (env : TokenEndpoint) (a : Audience) (m : TokenManager) (s : DelegatedSession)
      → m.credential ≡ delegated s
      → answered scopes env a m ≡ none
      → s.reauth ≡ none
  unfolding answered
  open_reauth env a m s signed open_call = elim (Option-cases s.reauth) [
    | inl free ↦ free
    | inr (r, stopped) ↦ let e = rw (answered, signed, stopped) at open_call in absurd (cc)
  ]

  refused_outcome :
      (env : TokenEndpoint) (a : Audience) (m : TokenManager) (s : DelegatedSession)
      (e : RefreshTokenError) (r : ReauthReason)
      → m.credential ≡ delegated s
      → answered scopes env a m ≡ none
      → env.refresh_token_grant s.refresh_token (scopes a) ≡ err e
      → refusal_of e ≡ needs_reauth r
      → locked scopes env a m ≡ (
        err (reauthentication_required (reauth_str r)),
        record m { credential = delegated (set_reauth r s) },
        1,
      )
  unfolding locked renew_with renew_session refuse_refresh
  refused_outcome env a m s e r signed open_call refused final =
      rw (locked, open_call, signed, renew_with, refused, renew_session, final, refuse_refresh) refl

  -- If a call of a signed-in user finds neither a refusal nor a valid token under the lock, and the
  -- token endpoint answers its refresh with an error that needs the user, then the caller is told
  -- to sign in again with the reason of that error, and from then on every call that checks the
  -- session, for either audience, is refused with the same reason and makes no request.
  pub refused_refresh_is_final :
      (env : TokenEndpoint) (a : Audience) (m : TokenManager) (s : DelegatedSession)
      (e : RefreshTokenError) (r : ReauthReason)
      → m.credential ≡ delegated s
      → answered scopes env a m ≡ none
      → env.refresh_token_grant s.refresh_token (scopes a) ≡ err e
      → refusal_of e ≡ needs_reauth r
      → ((locked scopes env a m).0 ≡ err (reauthentication_required (reauth_str r)))
        × ((next : TokenEndpoint) (b : Audience)
            → get_token scopes next b (locked scopes env a m).1 (locked scopes env a m).1
              ≡ (err (reauthentication_required (reauth_str r)), (locked scopes env a m).1, 0))
  refused_refresh_is_final env a m s e r signed open_call refused final =
      let p = refused_outcome env a m s e r signed open_call refused final in
      rw p (
        refl,
        λ next b.
            reauth_is_final next b (record m { credential = delegated (set_reauth r s) })
              (set_reauth r s) r refl
              (reauth_of-set_reauth r s (open_reauth env a m s signed open_call)),
      )
