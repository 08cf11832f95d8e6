-- ===== src/Tokens/Tests.antt =====
-- The round trips of tokens on a platform that can be run.
use todo_api.Base.{◌≡◌, ◌+◌, String, refl, some, arith}
use todo_api.Text.{strip, is_space}
use todo_api.Exceptions
use todo_api.Exceptions.{app}
use todo_api.Exceptions.Auth.{invalid_access_token}
use todo_api.Results.{ok, err}
use todo_api.Platform.Sample.{sample_platform, sample_platform-VerifiesClaims}
use todo_api.Tokens.{
  RefreshTokenPayload, required, lifetime, refresh_token_lifetime, validate_base,
  validate_session_id, refresh_claims, BaseTokenPayload,
}
use todo_api.Tokens.Create.{create_refresh_token, encode}
use todo_api.Tokens.Decode.{decode_access_token, decode_refresh_token}
use todo_api.Tokens.RoundTrip.{decode-create_refresh_token, refresh-not-access, whole_seconds}
use todo_api.Samples.{settings, nonces}

abbrev made_payload : BaseTokenPayload
made_payload = record {
  sub = "7";
  exp = 9000000;
  iat = 1000000;
  jti = nonces.refresh_jti;
  iss = "todo";
  aud = "refresh";
}

abbrev token : String
token = sample_platform.jwt_encode (refresh_claims made_payload nonces.session_id) "key" "HS256"

made :
    create_refresh_token sample_platform settings " 7" nonces.session_id
      (some 8000000)
      1000000
      nonces.refresh_jti
    ≡ ok token
unfolding create_refresh_token required lifetime refresh_token_lifetime validate_base
    validate_session_id strip is_space encode
made = refl

decode-create_refresh_token_example :
    (payload : RefreshTokenPayload) × (decode_refresh_token sample_platform settings token 2000000
      ≡ ok payload)
    × (payload.base.sub ≡ strip " 7")
    × (payload.session_id ≡ strip nonces.session_id)
    × (payload.base.exp ≡ whole_seconds (1000000 + 8000000))
unfolding strip is_space
decode-create_refresh_token_example =
    decode-create_refresh_token sample_platform settings " 7" nonces.session_id nonces.refresh_jti
      8000000 1000000 2000000 sample_platform-VerifiesClaims refl refl made (omega arith)
      (omega arith)

refresh-not-access_example :
    decode_access_token sample_platform settings token 2000000
    ≡ err (app (Exceptions.auth invalid_access_token))
refresh-not-access_example =
    refresh-not-access sample_platform settings " 7" nonces.session_id nonces.refresh_jti 8000000
      1000000 2000000 sample_platform-VerifiesClaims made
