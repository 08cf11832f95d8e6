-- ===== src/Cookies.antt =====
-- core/cookies.py: the cookies of a browser session.
pub mod Jar
pub mod Tests
use todo_api.Base.{
  ℕ, String, ◌≡◌, Bool, true, false, ◌-◌, ◌/◌, max, Option, none, some, List, [], ◌∷◌,
}
use todo_api.Results.{Result, ok, err, ◌>>=◌}
use todo_api.Config.{Settings, SameSite}
use todo_api.Platform.{Platform}
use todo_api.Tokens.{TokenResponse}
use todo_api.Tokens.Decode.{decode_refresh_token}
use todo_api.Dependencies.Browser.{access_cookie_name, refresh_cookie_name, csrf_cookie_name}

pub record Attributes : Type 0 where
  pub key : String
  pub path : String
  pub secure : Bool
  pub httponly : Bool
  pub samesite : SameSite

pub record SetCookie : Type 0 where
  pub attributes : Attributes
  pub value : String
  pub max_age : ℕ
  pub expires : Option ℕ

abbrev pub api_cookie_path : String
api_cookie_path = "/api/v1"

abbrev pub browser_auth_cookie_path : String
browser_auth_cookie_path = "/api/v1/auth/browser"

abbrev pub csrf_cookie_path : String
csrf_cookie_path = "/"

-- `_remaining_seconds`; a time that has passed gives 1 as well.
unfoldable pub remaining_seconds : ℕ → ℕ → ℕ
remaining_seconds expires_at now = max 1 ((expires_at - now) / 1000000)

abbrev pub attributes_of : Settings → String → String → Bool → Attributes
attributes_of settings key path httponly = record {
  key = key;
  path = path;
  secure = settings.auth_cookie_secure;
  httponly = httponly;
  samesite = settings.auth_cookie_samesite;
}

-- The three cookies, with the life of the refresh token.
abbrev pub session_cookies : Settings → TokenResponse → String → ℕ → ℕ → List SetCookie
session_cookies settings tokens csrf_token refresh_expires_at refresh_max_age =
    record {
      attributes = attributes_of settings access_cookie_name api_cookie_path true;
      value = tokens.access_token;
      max_age = tokens.expires_in;
      expires = none;
    }
    ∷ record {
      attributes = attributes_of settings refresh_cookie_name browser_auth_cookie_path true;
      value = tokens.refresh_token;
      max_age = refresh_max_age;
      expires = some refresh_expires_at;
    }
    ∷ record {
      attributes = attributes_of settings csrf_cookie_name csrf_cookie_path false;
      value = csrf_token;
      max_age = refresh_max_age;
      expires = some refresh_expires_at;
    }
    ∷ []

-- The cookies that the response sets; `csrf_token` is what `secrets.token_urlsafe` draws.
unfoldable pub set_browser_session_cookies :
    Platform → Settings → TokenResponse → String → ℕ → Result (List SetCookie)
unfolding remaining_seconds
set_browser_session_cookies p settings tokens csrf_token now = do
  payload ← decode_refresh_token p settings tokens.refresh_token now
  ok (
      session_cookies settings tokens csrf_token payload.base.exp
        (remaining_seconds payload.base.exp now))

-- `delete_cookie` of Starlette's `Response`, and what it documents: the cookie that it sets has the
-- attributes that it was given, and expires at once.
pub record Deletes (delete_cookie : Attributes → SetCookie) : Type 0 where
  pub keeps : (a : Attributes) → (delete_cookie a).attributes ≡ a
  pub ends : (a : Attributes) → (delete_cookie a).max_age ≡ 0

unfoldable pub clear_browser_session_cookies : (Attributes → SetCookie) → Settings → List SetCookie
clear_browser_session_cookies delete_cookie settings =
    delete_cookie (attributes_of settings access_cookie_name api_cookie_path true)
    ∷ delete_cookie (attributes_of settings refresh_cookie_name browser_auth_cookie_path true)
    ∷ delete_cookie (attributes_of settings csrf_cookie_name csrf_cookie_path false)
    ∷ []
