-- ===== src/Services/Sessions.antt =====
-- services/auth.py, the part on sessions: a login stages a session, a refresh rotates its token, a
-- logout revokes it. One reading of the clock serves each call, and `checked_at` the moment at which
-- a new token is read back.
pub mod Effects
pub mod Detection
pub mod Reuse
pub mod Accepted
pub mod Tests
use todo_api.Base.{
  ℕ, String, Bool, true, false, not, ◌&&◌, ◌||◌, ◌+◌, ◌==◌, nat_eq, string_eq, Option, none, some,
  is_some, is_none, List, [], ◌∷◌, ◌++◌, ltb, leb, find?, if◌then◌else◌,
}
use todo_api.Text.Decimal.{ℤ, pos, negsuc, show, int}
use todo_api.Exceptions
use todo_api.Exceptions.{ApplicationError, app, value_error}
use todo_api.Exceptions.Auth.{
  invalid_refresh_token, refresh_token_reuse_detected, inactive_user, email_not_verified,
  token_refresh_unavailable, login_session_unavailable, logout_unavailable,
}
use todo_api.Models.User.{User, is_email_verified}
use todo_api.Models.RefreshSession.{RefreshSession, is_active, revoke, rotate}
use todo_api.Results
use todo_api.Database.{
  Tables, Action, Result, ok, err, ◌>>=◌, ◌>>◌, pure, raise, raise_if, gets, modify, call, commit,
  lift, except_sql,
}
use todo_api.Config.{Settings}
use todo_api.Platform.{Platform}
use todo_api.Tokens.{TokenResponse, RefreshTokenPayload, hash_secret}
use todo_api.Tokens.Create.{Nonces, create_token_pair}
use todo_api.Tokens.Decode.{decode_refresh_token}
use todo_api.Repositories.User.{get_user_by_id}
use todo_api.Repositories.RefreshSession.{save_session}

-- `_matches_token`
abbrev pub matches_token : Option String → String → Bool
matches_token none presented_hash = false
matches_token (some stored_hash) presented_hash = stored_hash == presented_hash

-- `_is_recoverable_previous_token`
unfoldable pub is_recoverable_previous_token : Settings → RefreshSession → String → ℕ → Bool
is_recoverable_previous_token settings r presented_hash now = elim r.rotated_at [
  | none ↦ false
  | some rotated_at ↦
      if is_none r.previous_token_hash || settings.refresh_token_reuse_grace == 0
      then false
      else if ltb (rotated_at + settings.refresh_token_reuse_grace) now
      then false
      else matches_token r.previous_token_hash presented_hash
]

-- The new row of `stage_login_session`.
abbrev pub staged_session : Platform → User → String → TokenResponse → ℕ → ℕ → ℕ → RefreshSession
staged_session p user session_id tokens expires_at absolute_expires_at now = record {
  id = session_id;
  user_id = user.id;
  token_hash = hash_secret p tokens.refresh_token;
  previous_token_hash = none;
  expires_at = expires_at;
  absolute_expires_at = absolute_expires_at;
  revoked_at = none;
  last_used_at = some now;
  rotated_at = none;
}

unfoldable pub stage_login_session :
    Platform → Settings → Nonces → User → ℕ → ℕ → Action TokenResponse
stage_login_session p settings nonces user now checked_at = do
  let absolute_expires_at = now + settings.refresh_session_absolute_ttl
  tokens ← lift (
      create_token_pair p settings (show user.id) nonces.session_id now (some absolute_expires_at)
        nonces)
  payload ← lift (decode_refresh_token p settings tokens.refresh_token checked_at)
  modify (λ db. record db {
    refresh_sessions =
        db.refresh_sessions
        ++ staged_session p user nonces.session_id tokens payload.base.exp absolute_expires_at now
          ∷ [];
  })
  pure tokens

pub create_login_session : Platform → Settings → Nonces → User → ℕ → ℕ → Action TokenResponse
unfolding stage_login_session
create_login_session p settings nonces user now checked_at =
    except_sql
      (do tokens ← stage_login_session p settings nonces user now checked_at; commit; pure tokens)
      (Exceptions.auth login_session_unavailable)

abbrev find_session : String → Tables → Option RefreshSession
find_session id db = find? (λ r. r.id == id) db.refresh_sessions

-- `int(payload.sub)`, its `ValueError` being the given error.
abbrev subject_of : ApplicationError → Option ℤ → Result ℤ
subject_of e none = err (app e)
subject_of e (some n) = ok n

-- `record.user_id != user_id`
abbrev same_user : ℕ → ℤ → Bool
same_user id (pos n) = id == n
same_user id (negsuc n) = false

invalid : ApplicationError
invalid = Exceptions.auth invalid_refresh_token

-- `session.get(User, user_id)` for the subject of a token.
abbrev pub find_user : ℤ → Tables → Option User
find_user (pos n) db = find? (λ u. u.id == n) db.users
find_user (negsuc n) db = none

abbrev required_session : ℤ → ℕ → Option RefreshSession → Action RefreshSession
required_session user_id now none = raise invalid
required_session user_id now (some r) =
    if same_user r.user_id user_id && is_active r now then pure r else raise invalid

-- A revocation that is stored before the error is raised.
abbrev revoke_and_raise : {A : Type 0} → RefreshSession → ℕ → ApplicationError → Action A
revoke_and_raise r now e = do modify (save_session (revoke now r)); commit; raise e

abbrev required_user : RefreshSession → ℕ → Option User → Action User
required_user r now none = revoke_and_raise r now invalid
required_user r now (some u) =
    if not u.is_active
    then raise (Exceptions.auth inactive_user)
    else if not (is_email_verified u)
    then raise (Exceptions.auth email_not_verified)
    else pure u

abbrev rotated : Option RefreshSession → Result RefreshSession
rotated r = Results.or_raise r value_error

-- The last part of `refresh_login_session`: new tokens, and the session that goes with them.
pub issue_rotation :
    Platform → Settings → Nonces → RefreshSession → ℕ → ℕ → User → Action TokenResponse
issue_rotation p settings nonces r now checked_at user = do
  tokens ←
      lift
        (create_token_pair p settings (show user.id) r.id now (some r.absolute_expires_at) nonces)
  payload ← lift (decode_refresh_token p settings tokens.refresh_token checked_at)
  next ← lift (rotated (rotate (hash_secret p tokens.refresh_token) payload.base.exp now r))
  modify (save_session next)
  commit
  pure tokens

-- The part behind the check of the token against the session.
pub rotate_session :
    Platform → Settings → Nonces → RefreshSession → ℤ → ℕ → ℕ → Action TokenResponse
rotate_session p settings nonces r user_id now checked_at = do
  call
  found ← gets (find_user user_id)
  user ← required_user r now found
  issue_rotation p settings nonces r now checked_at user

-- Whether the presented token is the session's current one, or a retry within the grace period.
pub accepts : Platform → Settings → RefreshSession → String → ℕ → Bool
unfolding is_recoverable_previous_token
accepts p settings r refresh_token now =
    let presented_hash = hash_secret p refresh_token in
    matches_token (some r.token_hash) presented_hash
    || is_recoverable_previous_token settings r presented_hash now

pub refresh_login_session : Platform → Settings → Nonces → String → ℕ → ℕ → Action TokenResponse
refresh_login_session p settings nonces refresh_token now checked_at = do
  payload ← lift (decode_refresh_token p settings refresh_token now)
  user_id ← lift (subject_of invalid (int payload.base.sub))
  except_sql
      (do
        call
        found ← gets (find_session payload.session_id)
        r ← required_session user_id now found
        if accepts p settings r refresh_token now
            then rotate_session p settings nonces r user_id now checked_at
            else revoke_and_raise r now (Exceptions.auth refresh_token_reuse_detected))
      (Exceptions.auth token_refresh_unavailable)

-- The session of a logout: that of the identifier and the owner, if it is not revoked.
abbrev revoke_if_live : ℕ → Option RefreshSession → Action (Unit {0})
revoke_if_live now none = pure tt
revoke_if_live now (some r) =
    if is_some r.revoked_at then pure tt else do modify (save_session (revoke now r)); commit

abbrev readable : Result RefreshTokenPayload → Option (RefreshTokenPayload × ℤ)
readable (err e) = none
readable (ok payload) = elim (int payload.base.sub) [ none ↦ none | some n ↦ some (payload, n) ]

abbrev revoke_readable : ℕ → Option (RefreshTokenPayload × ℤ) → Action (Unit {0})
revoke_readable now none = pure tt
revoke_readable now (some (payload, user_id)) =
    except_sql
      (do
        call
        found ← gets (λ db.
            find? (λ r. r.id == payload.session_id && same_user r.user_id user_id)
              db.refresh_sessions)
        revoke_if_live now found)
      (Exceptions.auth logout_unavailable)

pub revoke_refresh_session : Platform → Settings → String → ℕ → Action (Unit {0})
revoke_refresh_session p settings refresh_token now =
    revoke_readable now (readable (decode_refresh_token p settings refresh_token now))
