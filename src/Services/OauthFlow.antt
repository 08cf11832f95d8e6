-- ===== src/Services/OauthFlow.antt =====
-- services/oauth.py: the authorization code flow with PKCE.
pub mod Exchange
pub mod Tests
use todo_api.Base.{
  ℕ, String, Bool, true, false, not, ◌&&◌, ◌||◌, ◌+◌, ◌==◌, nat_eq, string_eq, Option, none, some,
  List, [], ◌∷◌, find?, if◌then◌else◌,
}
use todo_api.Text.{strip, is_empty, rstrip_char}
use todo_api.Exceptions
use todo_api.Exceptions.{ApplicationError, app, sql, auth, oauth}
use todo_api.Exceptions.Auth.{login_session_unavailable}
use todo_api.Exceptions.Oauth.{
  invalid_oauth_client, invalid_redirect_uri, invalid_scope, invalid_authorization_grant,
  authorization_code_issuance_unavailable, authorization_code_exchange_unavailable,
}
use todo_api.Models.User.{User}
use todo_api.Models.OauthAuthorizationCode.{OauthAuthorizationCode}
use todo_api.Results.{ensure}
use todo_api.Results
use todo_api.Database.{
  Tables, Action, Result, ok, err, ◌>>=◌, ◌>>◌, pure, raise, raise_if, commit, lift, except_sql,
}
use todo_api.Config.{Settings, seconds}
use todo_api.Platform.{Platform}
use todo_api.Tokens.{TokenResponse, hash_secret}
use todo_api.Tokens.Create.{Nonces}
use todo_api.Repositories.User.{get_user_by_id}
use todo_api.Repositories.Oauth.{
  Grant, create_authorization_code, prune_expired_authorization_codes, consume_authorization_code,
}
use todo_api.Services.Accounts.{authenticate}
use todo_api.Services.Sessions.{stage_login_session}

-- The base64 text of the digest, without its padding by `=`, of code 61.
unfoldable pub create_s256_code_challenge : Platform → String → String
create_s256_code_challenge p code_verifier = rstrip_char 61 (p.urlsafe_sha256 code_verifier)

pub record AuthorizationRequest : Type 0 where
  pub client_id : String
  pub redirect_uri : String
  pub state : Option String
  pub code_challenge : String
  pub scope : String

pub record TokenRequest : Type 0 where
  pub client_id : String
  pub redirect_uri : String
  pub code : String
  pub code_verifier : String

-- `uri in uris`
abbrev pub is_among : String → List String → Bool
is_among uri [] = false
is_among uri (u ∷ us) = u == uri || is_among uri us

unfoldable pub validate_authorization_request : Settings → AuthorizationRequest → Result (Unit {0})
validate_authorization_request settings request =
    if not (request.client_id == settings.oauth2_public_client_id)
    then err (app (Exceptions.oauth invalid_oauth_client))
    else if not (is_among request.redirect_uri settings.oauth2_redirect_uris)
    then err (app (Exceptions.oauth invalid_redirect_uri))
    else if not (is_empty (strip request.scope))
    then err (app (Exceptions.oauth invalid_scope))
    else ok tt

-- `except LoginSessionUnavailableError`
abbrev translate_unavailable : {A : Type 0} → Result A → Result A
translate_unavailable (ok a) = ok a
translate_unavailable (err (app (auth login_session_unavailable))) =
    err (app (oauth authorization_code_issuance_unavailable))
translate_unavailable (err e) = err e

abbrev except_unavailable : {A : Type 0} → Action A → Action A
except_unavailable m s = let (r, s') = m s in (translate_unavailable r, s')

-- `raw_code` is what `secrets.token_urlsafe` draws.
unfoldable pub issue_authorization_code :
    Platform
    → Settings
    → String
    → String
    → String
    → AuthorizationRequest
    → String
    → ℕ
    → Action String
issue_authorization_code p settings dummy email password request raw_code now = do
  lift (validate_authorization_request settings request)
  user ← except_unavailable (authenticate p dummy email password)
  except_sql
      (do
        pruned ← prune_expired_authorization_codes now
        row ← create_authorization_code (record {
          code_hash = hash_secret p raw_code;
          user_id = user.id;
          client_id = request.client_id;
          redirect_uri = request.redirect_uri;
          code_challenge = request.code_challenge;
          expires_at = now + seconds settings.oauth2_authorization_code_ttl_seconds;
          consumed_at = none;
        })
        commit
        pure raw_code)
      (Exceptions.oauth authorization_code_issuance_unavailable)

-- The arguments of `consume_authorization_code`.
abbrev pub grant_of : Platform → TokenRequest → Grant
grant_of p request = record {
  code_hash = hash_secret p request.code;
  client_id = request.client_id;
  redirect_uri = request.redirect_uri;
  code_challenge = create_s256_code_challenge p request.code_verifier;
}

abbrev pub granted : Option ℕ → Result ℕ
granted none = err (app (Exceptions.oauth invalid_authorization_grant))
granted (some user_id) = ok user_id

abbrev pub granted_user : Option User → Result User
granted_user none = err (app (Exceptions.oauth invalid_authorization_grant))
granted_user (some u) =
    if u.is_active then ok u else err (app (Exceptions.oauth invalid_authorization_grant))

pub exchange_authorization_code :
    Platform → Settings → Nonces → TokenRequest → ℕ → ℕ → Action TokenResponse
unfolding consume_authorization_code get_user_by_id
exchange_authorization_code p settings nonces request now checked_at = do
  raise_if (not (request.client_id == settings.oauth2_public_client_id))
      (Exceptions.oauth invalid_oauth_client)
  except_sql
      (do
        consumed ← consume_authorization_code (grant_of p request) now
        user_id ← lift (granted consumed)
        found ← get_user_by_id user_id
        user ← lift (granted_user found)
        tokens ← stage_login_session p settings nonces user now checked_at
        commit
        pure tokens)
      (Exceptions.oauth authorization_code_exchange_unavailable)
