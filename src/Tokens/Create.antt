-- ===== src/Tokens/Create.antt =====
-- core/security.py: how tokens are made.
use todo_api.Base.{ℕ, String, not, ◌&&◌, ◌+◌, ◌/◌, Option, none, some, ltb}
use todo_api.Text.{is_empty}
use todo_api.Exceptions.{value_error}
use todo_api.Results.{Result, ok, ◌>>=◌, ◌>>◌, ensure, or_raise}
use todo_api.Config.{Settings}
use todo_api.Platform.{Platform, Claims}
use todo_api.Tokens.{
  TokenResponse, required, access_token_lifetime, refresh_token_lifetime, bounded_lifetime,
  validate_base, validate_session_id, access_claims, refresh_claims,
}

-- `_encode`
unfoldable pub encode : Platform → Settings → Claims → String
encode p settings claims = p.jwt_encode claims settings.secret_key settings.jwt_algorithm

unfoldable pub create_access_token :
    Platform → Settings → String → Option ℕ → ℕ → String → Result String
unfolding access_token_lifetime required
create_access_token p settings subject expires_delta issued_at jti = do
  span ← access_token_lifetime settings expires_delta
  sub ← required subject
  payload ←
      or_raise
        (validate_base (record {
          sub = sub;
          exp = issued_at + span;
          iat = issued_at;
          jti = jti;
          iss = settings.jwt_issuer;
          aud = settings.jwt_access_audience;
        }))
        value_error
  ok (encode p settings (access_claims payload))

unfoldable pub create_refresh_token :
    Platform → Settings → String → String → Option ℕ → ℕ → String → Result String
unfolding refresh_token_lifetime required
create_refresh_token p settings subject session_id expires_delta issued_at jti = do
  span ← refresh_token_lifetime settings expires_delta
  sub ← required subject
  sid ← required session_id
  payload ←
      or_raise
        (validate_base (record {
          sub = sub;
          exp = issued_at + span;
          iat = issued_at;
          jti = jti;
          iss = settings.jwt_issuer;
          aud = settings.jwt_refresh_audience;
        }))
        value_error
  sid' ← or_raise (validate_session_id sid) value_error
  ok (encode p settings (refresh_claims payload sid'))

-- The three random values of a pair of tokens.
pub record Nonces : Type 0 where
  pub session_id : String
  pub access_jti : String
  pub refresh_jti : String

unfoldable pub create_token_pair :
    Platform → Settings → String → String → ℕ → Option ℕ → Nonces → Result TokenResponse
unfolding create_access_token create_refresh_token bounded_lifetime access_token_lifetime
    refresh_token_lifetime
create_token_pair p settings subject session_id issued_at absolute_expires_at nonces = do
  access_default ← access_token_lifetime settings none
  access_lifetime ← bounded_lifetime access_default issued_at absolute_expires_at
  refresh_default ← refresh_token_lifetime settings none
  refresh_lifetime ← bounded_lifetime refresh_default issued_at absolute_expires_at
  access ← create_access_token p settings subject (some access_lifetime) issued_at nonces.access_jti
  refresh ←
      create_refresh_token p settings subject session_id (some refresh_lifetime) issued_at
        nonces.refresh_jti
  let expires_in = access_lifetime / 1000000
  ensure (not (is_empty access) && not (is_empty refresh) && ltb 0 expires_in) value_error
  ok (record { access_token = access; refresh_token = refresh; expires_in = expires_in })
