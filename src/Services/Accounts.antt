-- ===== src/Services/Accounts.antt =====
-- services/auth.py, the part on accounts: registration, the confirmation of email addresses, and
-- authentication by password; with db/errors.py and `normalize_email` of utils/email.py.
pub mod Verification
pub mod Cooldown
pub mod Registration
pub mod Tests
use todo_api.Base.{
  ℕ, String, Bool, true, false, not, ◌&&◌, ◌||◌, ◌+◌, ◌==◌, nat_eq, string_eq, Option, none, some,
  is_some, is_none, ltb, leb, find?, or_else, if◌then◌else◌,
}
use todo_api.Text.{strip, is_empty}
use todo_api.Exceptions
use todo_api.Exceptions.{ApplicationError, SqlError, integrity_error, other_sql_error, app, sql}
use todo_api.Exceptions.Auth.{
  email_already_registered, registration_unavailable, email_verification_unavailable,
  invalid_email_verification_token, login_session_unavailable, invalid_credentials, inactive_user,
  email_not_verified,
}
use todo_api.Models.User.{User, is_email_verified}
use todo_api.Results.{or_raise}
use todo_api.Database.{
  Tables, Session, Action, Result, ok, err, ◌>>=◌, ◌>>◌, pure, raise, raise_if, gets, modify, call,
  commit, lift, except_sql,
}
use todo_api.Config.{Settings}
use todo_api.Platform.{Platform}
use todo_api.Tokens.{hash_secret}
use todo_api.Repositories.User.{get_user_by_email, create_user, save_user}

unfoldable pub normalize_email : Platform → String → String
normalize_email p email = p.casefold (strip email)

-- `is_constraint_violation`, on the constraint's name that the driver reports.
abbrev pub is_constraint_violation : SqlError → String → Bool
is_constraint_violation (integrity_error (some violated)) name = violated == name
is_constraint_violation (integrity_error none) name = false
is_constraint_violation other_sql_error name = false

pub record UserCreate : Type 0 where
  pub email : String
  pub full_name : Option String
  pub password : String

pub record PendingEmailVerification : Type 0 where
  pub user : User
  pub token : String
  pub expires_at : ℕ

-- The last `except` clauses of `_register`.
abbrev translate_insert : {A : Type 0} → Result A → Result A
translate_insert (ok a) = ok a
translate_insert (err (sql e)) = err (
    app (
      if is_constraint_violation e "uq_users_email"
      then Exceptions.auth email_already_registered
      else Exceptions.auth registration_unavailable))
translate_insert (err other) = err other

abbrev except_insert : {A : Type 0} → Action A → Action A
except_insert m s = let (r, s') = m s in (translate_insert r, s')

-- `hash_password`, whose `HashingError` becomes the given error.
abbrev hashed : Platform → ApplicationError → String → Result String
hashed p e password = or_raise (p.hash password) (app e)

-- `_register`; `row id hash` is the new row, `id` the key that the sequence gives it.
_register : Platform → UserCreate → (String → User) → Action User
unfolding get_user_by_email create_user
_register p payload row = do
  existing ← except_sql (get_user_by_email payload.email) (Exceptions.auth registration_unavailable)
  raise_if (is_some existing) (Exceptions.auth email_already_registered)
  password_hash ← lift (hashed p (Exceptions.auth registration_unavailable) payload.password)
  except_insert (do user ← create_user (row password_hash); commit; pure user)

-- The row of a registration; what is not given is `None`.
abbrev pub new_user :
    ℕ → UserCreate → Bool → Option ℕ → Option String → Option ℕ → Option ℕ → String → User
new_user id payload is_superuser verified_at token_hash token_expires requested_at password_hash =
    record {
      id = id;
      email = payload.email;
      full_name = payload.full_name;
      hashed_password = password_hash;
      email_verified_at = verified_at;
      email_verification_token_hash = token_hash;
      email_verification_expires_at = token_expires;
      email_verification_requested_at = requested_at;
      is_active = true;
      is_superuser = is_superuser;
    }

pub register : Platform → ℕ → UserCreate → Bool → ℕ → Action User
unfolding _register
register p id payload is_superuser now =
    _register p payload (new_user id payload is_superuser (some now) none none none)

-- `token` is the token that `generate_email_verification_token` draws.
pub register_pending_verification :
    Platform → Settings → ℕ → UserCreate → String → ℕ → Action PendingEmailVerification
unfolding _register
register_pending_verification p settings id payload token now = do
  let expires_at = now + settings.email_verification_token_ttl
  user ← _register p payload (
      new_user id payload false none (if is_empty token then none else some (hash_secret p token))
        (some expires_at) (some now))
  pure (record { user = user; token = token; expires_at = expires_at })

abbrev pub with_token : Platform → Settings → String → ℕ → User → User
with_token p settings token now u = record u {
  email_verification_token_hash = some (hash_secret p token);
  email_verification_expires_at = some (now + settings.email_verification_token_ttl);
  email_verification_requested_at = some now;
}

-- Whether the last request is too recent for another.
abbrev pub is_cooling_down : Settings → ℕ → User → Bool
is_cooling_down settings now u = elim u.email_verification_requested_at [
  | none ↦ false
  | some at ↦ ltb now (at + settings.email_verification_resend_cooldown)
]

abbrev request_for :
    Platform → Settings → String → ℕ → Option User → Action (Option PendingEmailVerification)
request_for p settings token now none = pure none
request_for p settings token now (some u) =
    if is_email_verified u
    then pure none
    else if is_cooling_down settings now u
    then pure none
    else do
      modify (save_user (with_token p settings token now u))
      commit
      pure (
          some (record {
            user = with_token p settings token now u;
            token = token;
            expires_at = now + settings.email_verification_token_ttl;
          }))

pub request_email_verification :
    Platform → Settings → String → String → ℕ → Action (Option PendingEmailVerification)
unfolding normalize_email
request_email_verification p settings email token now =
    except_sql
      (do
        call
        found ← gets (λ db. find? (λ u. u.email == normalize_email p email) db.users)
        request_for p settings token now found)
      (Exceptions.auth email_verification_unavailable)

-- `User.email_verification_token_hash == token_hash`, which no missing hash meets.
abbrev pub has_token : String → User → Bool
has_token token_hash u = elim u.email_verification_token_hash [
  | none ↦ false
  | some h ↦ h == token_hash
]

abbrev pub verified : ℕ → User → User
verified now u = record u {
  email_verified_at = some now;
  email_verification_token_hash = none;
  email_verification_expires_at = none;
  email_verification_requested_at = none;
}

-- An expired token is taken away; the time of its request stays.
abbrev pub without_expired_token : User → User
without_expired_token u = record u {
  email_verification_token_hash = none;
  email_verification_expires_at = none;
}

abbrev has_live_token : ℕ → User → Bool
has_live_token now u = elim u.email_verification_expires_at [ none ↦ false | some at ↦ ltb now at ]

abbrev verify_found : ℕ → Option User → Action User
verify_found now none = raise (Exceptions.auth invalid_email_verification_token)
verify_found now (some u) =
    if is_email_verified u
    then raise (Exceptions.auth invalid_email_verification_token)
    else if has_live_token now u
    then (do modify (save_user (verified now u)); commit; pure (verified now u))
    else (do
      modify (save_user (without_expired_token u))
      commit
      raise (Exceptions.auth invalid_email_verification_token))

pub verify_email : Platform → String → ℕ → Action User
verify_email p token now = do
  raise_if (is_empty (strip token)) (Exceptions.auth invalid_email_verification_token)
  except_sql
      (do
        call
        found ← gets (λ db. find? (has_token (hash_secret p (strip token))) db.users)
        verify_found now found)
      (Exceptions.auth email_verification_unavailable)

abbrev pub password_hash_of : String → Option User → String
password_hash_of dummy none = dummy
password_hash_of dummy (some u) = u.hashed_password

abbrev pub with_replacement : Option String → User → User
with_replacement none u = u
with_replacement (some h) u = record u { hashed_password = h }

abbrev checked_user : Bool → Option User → Result User
checked_user valid none = err (app (Exceptions.auth invalid_credentials))
checked_user valid (some u) =
    if not valid
    then err (app (Exceptions.auth invalid_credentials))
    else if not u.is_active
    then err (app (Exceptions.auth inactive_user))
    else if not (is_email_verified u)
    then err (app (Exceptions.auth email_not_verified))
    else ok u

-- `dummy` is `DUMMY_PASSWORD_HASH`. The replaced hash is in the session, and stored by the commit of
-- whoever called.
unfoldable pub authenticate : Platform → String → String → String → Action User
unfolding get_user_by_email normalize_email
authenticate p dummy email password = do
  found ←
      except_sql (get_user_by_email (normalize_email p email))
        (Exceptions.auth login_session_unavailable)
  (valid, replacement) ← lift (
      or_raise (p.verify_and_update password (password_hash_of dummy found))
        (app (Exceptions.auth login_session_unavailable)))
  user ← lift (checked_user valid found)
  modify (save_user (with_replacement replacement user))
  pure (with_replacement replacement user)
