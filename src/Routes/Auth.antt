-- ===== src/Routes/Auth.antt =====
-- api/v1/routes/auth.py: registration, the confirmation of addresses, and sessions by tokens and by
-- cookies. The counters of attempts are left out, and an error leaves a route as the service raised it.
pub mod Forgery
use todo_api.Base.{ℕ, String, Bool, true, Option, none, some, List, [], ◌∷◌, if◌then◌else◌}
use todo_api.Text.{is_empty}
use todo_api.Exceptions
use todo_api.Exceptions.Auth.{invalid_refresh_token}
use todo_api.Models.User.{User}
use todo_api.Database.{Action, ◌>>=◌, ◌>>◌, pure, raise_if, lift}
use todo_api.Config.{Settings}
use todo_api.Platform.{Platform}
use todo_api.Tokens.{TokenResponse, given}
use todo_api.Tokens.Create.{Nonces}
use todo_api.Cookies.{
  Attributes, SetCookie, set_browser_session_cookies, clear_browser_session_cookies,
}
use todo_api.Dispatch.{
  Broker, enqueue_registration_verification_email, enqueue_registration_welcome_email,
}
use todo_api.Dependencies.Browser.{Request, require_browser_csrf_token, refresh_cookie_name}
use todo_api.Services.Accounts.{
  UserCreate, PendingEmailVerification, register_pending_verification, request_email_verification,
  verify_email, authenticate,
}
use todo_api.Services.Sessions.{create_login_session, refresh_login_session, revoke_refresh_session}
use todo_api.Routes.Guarded.{Activity}
use todo_api.Routes.LoginPage.{no_store_headers}

abbrev pub user_activity : String → ℕ → Activity
user_activity event user_id = record {
  event = event;
  user_id = user_id;
  resource_type = "user";
  resource_id = user_id;
}

-- `RegistrationResponseSchema`, and the task behind it.
pub record Registration : Type 0 where
  pub user : User
  pub verification_email_queued : Bool
  pub activities : List Activity

abbrev pub registration : Broker → String → PendingEmailVerification → Action Registration
registration broker request_id pending = do
  queued ← lift (
      enqueue_registration_verification_email broker pending.user.email pending.token
        pending.user.full_name request_id pending.expires_at)
  pure (record {
    user = pending.user;
    verification_email_queued = queued;
    activities = user_activity "user.registered" pending.user.id ∷ [];
  })

unfoldable pub register :
    Platform → Settings → Broker → String → ℕ → UserCreate → String → ℕ → Action Registration
register p settings broker request_id id payload token now = do
  pending ← register_pending_verification p settings id payload token now
  registration broker request_id pending

-- Whether a mail was queued, which the response does not tell.
abbrev pub resent : Broker → String → Option PendingEmailVerification → Action (Option Bool)
resent broker request_id none = pure none
resent broker request_id (some pending) = do
  queued ← lift (
      enqueue_registration_verification_email broker pending.user.email pending.token
        pending.user.full_name request_id pending.expires_at)
  pure (some queued)

unfoldable pub resend_email_verification :
    Platform → Settings → Broker → String → String → String → ℕ → Action (Option Bool)
resend_email_verification p settings broker request_id email token now = do
  pending ← request_email_verification p settings email token now
  resent broker request_id pending

pub record Confirmation : Type 0 where
  pub headers : List (String × String)
  pub activities : List Activity
  pub welcome_email_queued : Bool

abbrev pub confirmation : Broker → String → User → Action Confirmation
confirmation broker request_id user = do
  queued ← lift (enqueue_registration_welcome_email broker user.email user.full_name request_id)
  pure (record {
    headers =
        ("Cache-Control", "no-store")
        ∷ ("Pragma", "no-cache")
        ∷ ("Referrer-Policy", "no-referrer")
        ∷ [];
    activities = user_activity "user.email_verified" user.id ∷ [];
    welcome_email_queued = queued;
  })

unfoldable pub confirm_email_verification :
    Platform → Broker → String → String → ℕ → Action Confirmation
confirm_email_verification p broker request_id token now = do
  user ← verify_email p token now
  confirmation broker request_id user

-- `checked_at` is the later reading of the clock, as in the service.
unfoldable pub login :
    Platform → Settings → String → Nonces → String → String → ℕ → ℕ → Action TokenResponse
login p settings dummy nonces username password now checked_at = do
  user ← authenticate p dummy username password
  create_login_session p settings nonces user now checked_at

-- `BrowserSessionResponseSchema` with what the route puts on the response.
pub record BrowserSession : Type 0 where
  pub expires_in : ℕ
  pub set_cookies : List SetCookie
  pub headers : List (String × String)

abbrev pub browser_session : TokenResponse → List SetCookie → BrowserSession
browser_session tokens cookies = record {
  expires_in = tokens.expires_in;
  set_cookies = cookies;
  headers = no_store_headers;
}

-- `csrf_token` is what the setting of the cookies draws, and `set_at` its reading of the clock.
abbrev pub with_cookies : Platform → Settings → String → ℕ → TokenResponse → Action BrowserSession
with_cookies p settings csrf_token set_at tokens = do
  cookies ← lift (set_browser_session_cookies p settings tokens csrf_token set_at)
  pure (browser_session tokens cookies)

unfoldable pub browser_login :
    Platform
    → Settings
    → String
    → Nonces
    → String
    → String
    → String
    → ℕ
    → ℕ
    → ℕ
    → Action BrowserSession
unfolding login
browser_login p settings dummy nonces username password csrf_token now checked_at set_at = do
  tokens ← login p settings dummy nonces username password now checked_at
  with_cookies p settings csrf_token set_at tokens

unfoldable pub refresh : Platform → Settings → Nonces → String → ℕ → ℕ → Action TokenResponse
refresh p settings nonces refresh_token now checked_at =
    refresh_login_session p settings nonces refresh_token now checked_at

unfoldable pub refresh_browser_session :
    Platform
    → Settings
    → Nonces
    → Request
    → Option String
    → String
    → ℕ
    → ℕ
    → ℕ
    → Action BrowserSession
refresh_browser_session p settings nonces request csrf_header csrf_token now checked_at set_at = do
  lift (require_browser_csrf_token csrf_header request)
  raise_if (is_empty (given (request.cookie refresh_cookie_name)))
      (Exceptions.auth invalid_refresh_token)
  tokens ←
      refresh_login_session p settings nonces (given (request.cookie refresh_cookie_name)) now
        checked_at
  with_cookies p settings csrf_token set_at tokens

unfoldable pub logout : Platform → Settings → String → ℕ → Action (Unit {0})
logout p settings refresh_token now = revoke_refresh_session p settings refresh_token now

abbrev pub revoke_if_given : Platform → Settings → String → ℕ → Action (Unit {0})
revoke_if_given p settings refresh_token now =
    if is_empty refresh_token then pure tt else revoke_refresh_session p settings refresh_token now

-- The cookies of the answer, which has `no_store_headers`.
unfoldable pub logout_browser_session :
    Platform
    → (Attributes → SetCookie)
    → Settings
    → Request
    → Option String
    → ℕ
    → Action (List SetCookie)
logout_browser_session p delete_cookie settings request csrf_header now = do
  lift (require_browser_csrf_token csrf_header request)
  revoke_if_given p settings (given (request.cookie refresh_cookie_name)) now
  pure (clear_browser_session_cookies delete_cookie settings)
