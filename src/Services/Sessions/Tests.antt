-- ===== src/Services/Sessions/Tests.antt =====
-- The theorems on sessions at a concrete session of Ann's.
use todo_api.Base.{
  ◌≡◌, ◌≤◌, ◌+◌, ◌==◌, string_eq, nat_eq, ◌⊎◌, ℕ, String, refl, true, false, some, List, [], ◌∷◌,
}
use todo_api.Text.{strip, is_space}
use todo_api.Text.Decimal.{int, pos}
use todo_api.Exceptions
use todo_api.Exceptions.{app}
use todo_api.Exceptions.Auth.{refresh_token_reuse_detected}
use todo_api.Results.{is_ok}
use todo_api.Database.{run, ok, err}
use todo_api.Models.RefreshSession.{RefreshSession, is_active}
use todo_api.Tokens.{RefreshTokenPayload, validate_base, validate_session_id, hash_secret}
use todo_api.Tokens.Decode.{decode_refresh_token, decode, base_payload, refresh_payload}
use todo_api.Samples.{plain_platform, settings, nonces, session, with_session}
use todo_api.Services.Sessions.{refresh_login_session, accepts, is_recoverable_previous_token}
use todo_api.Services.Sessions.Detection.{
  TimedCall, login, prune, refresh, perform_all, IsRevoked, refresh-revoked,
}
use todo_api.Services.Sessions.Reuse.{refresh-reuse, accepts-IsRecent}
use todo_api.Samples.{ann}

abbrev payload : RefreshTokenPayload
payload = record {
  base = record {
    sub = "7";
    exp = 100000000;
    iat = 0;
    jti = "j0000000000000000000000000000000";
    iss = "todo";
    aud = "refresh";
  };
  session_id = "s1000000000000000000000000000000";
}

read_token : decode_refresh_token plain_platform settings "token" 2000000 ≡ ok payload
unfolding decode_refresh_token decode refresh_payload base_payload validate_base validate_session_id
    strip is_space
read_token = refl

refresh-reuse_example :
    let out =
      run
        (refresh_login_session plain_platform settings nonces "token" 2000000 2000000)
        []
        (with_session session) in
    (out.0 ≡ err (app (Exceptions.auth refresh_token_reuse_detected)))
    × IsRevoked "s1000000000000000000000000000000" out.1
unfolding is_active accepts hash_secret is_recoverable_previous_token int strip is_space
refresh-reuse_example =
    refresh-reuse plain_platform settings nonces 2000000 2000000 "token" payload (pos 7) session
      (with_session session) read_token refl refl refl refl

abbrev history : List TimedCall
history =
    record { session_call = login nonces ann; now = 3000000; checked_at = 3000000; answers = [] }
    ∷ record {
      session_call = refresh nonces "token";
      now = 4000000;
      checked_at = 4000000;
      answers = [];
    }
    ∷ record { session_call = prune; now = 5000000; checked_at = 5000000; answers = [] }
    ∷ []

refresh-revoked_example :
    let db' =
      perform_all plain_platform settings history
        (with_session (record session { revoked_at = some 5 })) in
    let out =
      run (refresh_login_session plain_platform settings nonces "token" 2000000 2000000) [] db' in
    (is_ok out.0 ≡ false) × (out.1 ≡ db')
refresh-revoked_example =
    refresh-revoked plain_platform settings "s1000000000000000000000000000000" history
      (with_session (record session { revoked_at = some 5 })) nonces "token" 2000000 2000000 []
      payload ((λ e. refl), tt) (refl, (tt, (tt, tt))) read_token refl

accepts-IsRecent_example :
    let r : RefreshSession = record session { token_hash = "token" } in
    ((r.token_hash == hash_secret plain_platform "token") ≡ true)
    ⊎ ((rotated_at : ℕ) × (previous : String) × (r.rotated_at ≡ some rotated_at)
        × (r.previous_token_hash ≡ some previous)
        × ((previous == hash_secret plain_platform "token") ≡ true)
        × (2000000 ≤ rotated_at + settings.refresh_token_reuse_grace)
        × ((settings.refresh_token_reuse_grace == 0) ≡ false))
unfolding accepts hash_secret
accepts-IsRecent_example =
    accepts-IsRecent plain_platform settings (record session { token_hash = "token" }) "token"
      2000000 refl
