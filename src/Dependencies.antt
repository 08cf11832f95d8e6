-- ===== src/Dependencies.antt =====
-- api/deps.py: how a request is authenticated, and the checks against forged requests. The counters
-- of attempts are left out.
pub mod Access
pub mod Subject
pub mod Keys
pub mod Browser
pub mod Tests
use todo_api.Base.{
  ℕ, String, Bool, true, false, not, ◌&&◌, ◌||◌, ◌==◌, nat_eq, string_eq, Option, none, some,
  is_some, is_none, List, [], ◌∷◌, find?, if◌then◌else◌,
}
use todo_api.Text.{strip, is_empty}
use todo_api.Text.Decimal.{ℤ, pos, negsuc, int}
use todo_api.Exceptions
use todo_api.Exceptions.{ApplicationError, app}
use todo_api.Exceptions.Auth.{
  inactive_user, email_not_verified, invalid_access_token, token_authentication_unavailable,
  invalid_basic_credentials, basic_authentication_unavailable,
}
use todo_api.Exceptions.ApiKey.{api_key_required, api_key_service, invalid_api_key}
use todo_api.Models.User.{User, is_email_verified}
use todo_api.Models.ApiKey.{ApiKey}
use todo_api.Results.{or_raise}
use todo_api.Database.{
  Tables, Action, Result, ok, err, ◌>>=◌, ◌>>◌, pure, raise, raise_if, lift, except_sql,
}
use todo_api.Config.{Settings}
use todo_api.Platform.{Platform}
use todo_api.Tokens.{BaseTokenPayload, hash_secret, given}
use todo_api.Tokens.Decode.{decode_access_token}
use todo_api.Repositories.User.{get_user_by_id, get_user_by_email}
use todo_api.Repositories.ApiKey.{get_active_api_key_by_hash}
use todo_api.Services.Accounts.{normalize_email, password_hash_of}

-- `_require_active_user`
abbrev pub require_active_user : User → Result User
require_active_user u =
    if not u.is_active
    then err (app (Exceptions.auth inactive_user))
    else if not (is_email_verified u)
    then err (app (Exceptions.auth email_not_verified))
    else ok u

-- The identifier in a subject: a number above 0.
abbrev positive : Option ℤ → Result ℕ
positive none = err (app (Exceptions.auth invalid_access_token))
positive (some (negsuc n)) = err (app (Exceptions.auth invalid_access_token))
positive (some (pos n)) = if n == 0 then err (app (Exceptions.auth invalid_access_token)) else ok n

-- Every `ValueError` of the decoding is an invalid token as well.
abbrev pub user_id_of : Result BaseTokenPayload → Result ℕ
user_id_of (err e) = err (app (Exceptions.auth invalid_access_token))
user_id_of (ok payload) = positive (int payload.sub)

-- `_access_token_user_id`
abbrev pub access_token_user_id : Platform → Settings → String → ℕ → Result ℕ
access_token_user_id p settings token now = user_id_of (decode_access_token p settings token now)

abbrev pub required_active : ApplicationError → Option User → Result User
required_active e none = err (app e)
required_active e (some u) = require_active_user u

-- `_authenticate_access_token`
unfoldable pub authenticate_access_token : Platform → Settings → String → ℕ → Action User
unfolding get_user_by_id
authenticate_access_token p settings token now = do
  user_id ← lift (access_token_user_id p settings token now)
  found ← except_sql (get_user_by_id user_id) (Exceptions.auth token_authentication_unavailable)
  lift (required_active (Exceptions.auth invalid_access_token) found)

-- `_select_access_token`
unfoldable pub select_access_token : Option String → Option String → Result String
select_access_token explicit_token cookie_token =
    if not (is_empty (given explicit_token))
    then ok (given explicit_token)
    else if not (is_empty (given cookie_token))
    then ok (given cookie_token)
    else err (app (Exceptions.auth invalid_access_token))

-- `get_current_user`, `get_current_authorization_code_user` and `get_current_bearer_user`, which
-- differ in the scheme that reads the token from the header.
unfoldable pub get_current_user :
    Platform → Settings → Option String → Option String → ℕ → Action User
unfolding authenticate_access_token select_access_token
get_current_user p settings token cookie_token now = do
  selected_token ← lift (select_access_token token cookie_token)
  authenticate_access_token p settings selected_token now

abbrev basic_user : Bool → Option User → Result User
basic_user valid_password none = err (app (Exceptions.auth invalid_basic_credentials))
basic_user valid_password (some u) =
    if valid_password
    then require_active_user u
    else err (app (Exceptions.auth invalid_basic_credentials))

-- The credentials are a user name and a password.
abbrev basic_credentials : Option (String × String) → Result (String × String)
basic_credentials none = err (app (Exceptions.auth invalid_basic_credentials))
basic_credentials (some c) = ok c

pub get_current_basic_user : Platform → String → Option (String × String) → Action User
unfolding get_user_by_email
get_current_basic_user p dummy credentials = do
  (username, password) ← lift (basic_credentials credentials)
  found ←
      except_sql (get_user_by_email (normalize_email p username))
        (Exceptions.auth basic_authentication_unavailable)
  valid_password ← lift (
      or_raise (p.verify password (password_hash_of dummy found))
        (app (Exceptions.auth basic_authentication_unavailable)))
  lift (basic_user valid_password found)

abbrev key_holder : Option (ApiKey × User) → Result User
key_holder none = err (app (Exceptions.api_key invalid_api_key))
key_holder (some (key, u)) = require_active_user u

-- `_authenticate_api_key`, behind `get_current_header_api_key_user` and
-- `get_current_query_api_key_user`.
pub authenticate_api_key : Platform → Option String → Action User
unfolding get_active_api_key_by_hash
authenticate_api_key p api_key = do
  let normalized_key = strip (given api_key)
  raise_if (is_empty normalized_key) (Exceptions.api_key api_key_required)
  found ←
      except_sql (get_active_api_key_by_hash (hash_secret p normalized_key))
        (Exceptions.api_key api_key_service)
  lift (key_holder found)
