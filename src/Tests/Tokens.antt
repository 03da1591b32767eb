-- ===== src/Tests/Tokens.antt =====
-- Runs of the token manager.
use microsoft_defender_mcp.Prelude.{◌+◌, ◌<◌, ◌≡◌, refl, none, some, List, [], ◌∷◌, ok, err}
use microsoft_defender_mcp.Auth.Token.{
  Audience, endpoint, CachedToken, get_for, DelegatedSession, delegated, TokenManager,
  TokenEndpoint, RefreshTokenError, endpoint_error, refusal_of, needs_reauth, session_expired,
  reauth_str, answered, locked, get_token,
}
use microsoft_defender_mcp.Auth.Token.Renewal.{renewal_is_shared, refused_refresh_is_final}
use microsoft_defender_mcp.Error.{reauthentication_required}
use microsoft_defender_mcp.Text.{text_eq, Text, lit}

abbrev scopes : Audience → List Text
scopes a = []

abbrev session : DelegatedSession
session = record {
  refresh_token = b'r' ∷ [];
  consent = record { at_endpoint = none; at_graph = none };
  reauth = none;
}

abbrev stopped_session : DelegatedSession
stopped_session = record session { reauth = some session_expired }

abbrev manager_of : DelegatedSession → TokenManager
manager_of s = record {
  credential = delegated s;
  cache = record { at_endpoint = none; at_graph = none };
}

abbrev renews : TokenEndpoint
renews = record {
  now = 1000;
  later = 1001;
  fetch_app_token = λ a. err [];
  refresh_token_grant =
      λ rt ss. ok (record { access_token = b't' ∷ []; expires_in = 3600; refresh_token = none });
  show_error = λ e. [];
}

abbrev expired : RefreshTokenError
expired = endpoint_error (record { error = lit "invalid_grant"; aadsts = some 700082 })

abbrev refuses : TokenEndpoint
refuses = record renews { refresh_token_grant = λ rt ss. err expired }

renewed_token : (locked scopes renews endpoint (manager_of session)).0 ≡ ok (b't' ∷ [])
unfolding locked
renewed_token = refl

renewal_is_shared_example :
    (c : CachedToken) × (get_for endpoint
        (locked scopes renews endpoint (manager_of session)).1.cache
      ≡ some c)
    × (c.token ≡ b't' ∷ [])
    × ((next : TokenEndpoint) (before : TokenManager)
        → next.now + 60 < c.expires_at
        → answered scopes next endpoint before ≡ none
        → get_token scopes next endpoint before
            (locked scopes renews endpoint (manager_of session)).1
          ≡ (ok (b't' ∷ []), (locked scopes renews endpoint (manager_of session)).1, 0))
renewal_is_shared_example =
    renewal_is_shared scopes renews endpoint (manager_of session) (b't' ∷ []) renewed_token

open_session : answered scopes refuses endpoint (manager_of session) ≡ none
unfolding answered
open_session = refl

expired_refusal : refusal_of expired ≡ needs_reauth session_expired
unfolding refusal_of text_eq lit
expired_refusal = refl

refused_refresh_is_final_example :
    ((locked scopes refuses endpoint (manager_of session)).0
      ≡ err (reauthentication_required (reauth_str session_expired)))
    × ((next : TokenEndpoint) (b : Audience)
        → get_token scopes next b
            (locked scopes refuses endpoint (manager_of session)).1
            (locked scopes refuses endpoint (manager_of session)).1
          ≡ (
            err (reauthentication_required (reauth_str session_expired)),
            (locked scopes refuses endpoint (manager_of session)).1,
            0,
          ))
refused_refresh_is_final_example =
    refused_refresh_is_final scopes refuses endpoint (manager_of session) session expired
      session_expired refl open_session refl expired_refusal
