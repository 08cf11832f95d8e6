-- ===== src/Services/OauthFlow/Tests.antt =====
-- The exchange of Ann's authorization code.
use todo_api.Base.{◌≡◌, ◌⊎◌, refl, false, none, [], ◌∷◌, arith}
use todo_api.Text.{strip, is_space}
use todo_api.Text.Decimal.{show}
use todo_api.Results.{is_ok}
use todo_api.Models.OauthAuthorizationCode.{OauthAuthorizationCode}
use todo_api.Database.{Tables, run, ok, next_answer, later_answers}
use todo_api.Repositories.User.{get_user_by_id}
use todo_api.Repositories.Oauth.{consume_authorization_code}
use todo_api.Tokens.{
  TokenResponse, validate_base, validate_session_id, hash_secret, required, lifetime,
  bounded_lifetime, access_token_lifetime, refresh_token_lifetime,
}
use todo_api.Tokens.Create.{create_token_pair, create_access_token, create_refresh_token, encode}
use todo_api.Tokens.Decode.{decode_refresh_token, decode, base_payload, refresh_payload}
use todo_api.Samples.{plain_platform, settings, nonces, tables}
use todo_api.Services.Sessions.{stage_login_session}
use todo_api.Services.OauthFlow.{
  TokenRequest, exchange_authorization_code, create_s256_code_challenge,
}
use todo_api.Services.OauthFlow.Exchange.{IsGrantExchange, exchange-once, exchange-atomic}

abbrev token_request : TokenRequest
token_request = record {
  client_id = "web";
  redirect_uri = "app:/callback";
  code = "c0de";
  code_verifier = "proof";
}

abbrev code : OauthAuthorizationCode
code = record {
  code_hash = "c0de";
  user_id = 7;
  client_id = "web";
  redirect_uri = "app:/callback";
  code_challenge = "proof";
  expires_at = 60000000;
  consumed_at = none;
}

abbrev before : Tables
before = record tables { oauth_authorization_codes = code ∷ [] }

abbrev given_tokens : TokenResponse
given_tokens = record { access_token = "token"; refresh_token = "token"; expires_in = 60 }

exchanged :
    (run
      (exchange_authorization_code plain_platform settings nonces token_request 2000000 2000000)
      []
      before).0
    ≡ ok given_tokens
unfolding exchange_authorization_code consume_authorization_code get_user_by_id stage_login_session
    next_answer later_answers hash_secret create_s256_code_challenge create_token_pair
    create_access_token create_refresh_token decode_refresh_token decode refresh_payload
    base_payload validate_base validate_session_id strip is_space required lifetime bounded_lifetime
    access_token_lifetime refresh_token_lifetime show encode
exchanged = refl

exchange-once_example :
    let db' =
      (run
        (exchange_authorization_code plain_platform settings nonces token_request 2000000 2000000)
        []
        before).1 in
    let out =
      run
        (exchange_authorization_code plain_platform settings nonces token_request 3000000 3000000)
        []
        db' in
    (is_ok out.0 ≡ false) × (out.1 ≡ db')
unfolding hash_secret
exchange-once_example =
    exchange-once plain_platform settings nonces nonces token_request token_request 2000000 2000000
      3000000 3000000 [] [] before given_tokens (omega arith) exchanged refl

exchange-atomic_example :
    let out =
      run
        (exchange_authorization_code plain_platform settings nonces token_request 2000000 2000000)
        []
        before in
    ((is_ok out.0 ≡ false) × (out.1 ≡ before))
    ⊎ ((t : TokenResponse) × (out.0 ≡ ok t)
        × IsGrantExchange plain_platform settings nonces token_request 2000000 before t out.1)
exchange-atomic_example =
    exchange-atomic plain_platform settings nonces token_request 2000000 2000000 [] before
