-- ===== src/Dependencies/Browser.antt =====
-- api/deps.py: the checks against requests that another site makes a browser send. A request has its
-- method, its own scheme and host, its headers (by a function that knows no case, as Starlette's
-- `Headers` does) and its cookies.
pub mod Origins
pub mod Guards
use todo_api.Base.{
  ℕ, String, Bool, true, false, not, ◌&&◌, ◌||◌, ◌==◌, string_eq, Option, none, some, is_some,
  is_none, List, [], ◌∷◌, if◌then◌else◌, is_in,
}
use todo_api.Text.{strip, is_empty, ◌<>◌}
use todo_api.Text.Split.{before, behind}
use todo_api.Text.Url.{Url, urlsplit}
use todo_api.Exceptions
use todo_api.Exceptions.{app, value_error}
use todo_api.Exceptions.Auth.{request_origin_not_allowed, invalid_csrf_token}
use todo_api.Results.{Result, ok, err}
use todo_api.Config.{Settings}
use todo_api.Config.Validators.{is_web}
use todo_api.Platform.{Platform}
use todo_api.Tokens.{given, verify_csrf_token}

pub record Request : Type 0 where
  pub method : String
  pub scheme : String
  pub netloc : String
  pub header : String → Option String
  pub cookie : String → Option String

abbrev pub access_cookie_name : String
access_cookie_name = "todo_access_token"

abbrev pub refresh_cookie_name : String
refresh_cookie_name = "todo_refresh_token"

abbrev pub csrf_cookie_name : String
csrf_cookie_name = "todo_csrf_token"

abbrev pub safe_methods : List String
safe_methods = "GET" ∷ "HEAD" ∷ "OPTIONS" ∷ "TRACE" ∷ []

abbrev pub origin_of : Platform → Option Url → Result (Option String)
origin_of p none = err value_error
origin_of p (some u) =
    if not (is_web u.scheme) || is_empty u.netloc
    then ok none
    else ok (some (p.lower u.scheme <> "://" <> p.lower u.netloc))

-- `_extract_origin`; the `ValueError` of `urlsplit` is not caught.
unfoldable pub extract_origin : Platform → Option String → Result (Option String)
extract_origin p value =
    if is_empty (given value) then ok none else origin_of p (urlsplit p (strip (given value)))

abbrev pub uses_browser_session : Request → Bool
uses_browser_session r =
    is_some (r.cookie access_cookie_name) || is_some (r.cookie refresh_cookie_name)

abbrev pub request_origin : Request → String
request_origin r = r.scheme <> "://" <> r.netloc

abbrev pub allowed : Settings → Request → Option String → Result (Unit {0})
allowed settings r none = err (app (Exceptions.auth request_origin_not_allowed))
allowed settings r (some origin) =
    if is_in origin (request_origin r ∷ settings.cors_allowed_origins)
    then ok tt
    else err (app (Exceptions.auth request_origin_not_allowed))

abbrev pub then_allowed : Settings → Request → Result (Option String) → Result (Unit {0})
then_allowed settings r (err e) = err e
then_allowed settings r (ok origin) = allowed settings r origin

abbrev pub by_origin : Platform → Settings → Request → Result (Option String) → Result (Unit {0})
by_origin p settings r (err e) = err e
by_origin p settings r (ok (some origin)) = allowed settings r (some origin)
by_origin p settings r (ok none) =
    if not (uses_browser_session r)
    then ok tt
    else then_allowed settings r (extract_origin p (r.header "referer"))

unfoldable pub validate_request_origin : Platform → Settings → Request → Result (Unit {0})
validate_request_origin p settings r =
    if is_in (p.upper r.method) safe_methods
    then ok tt
    else by_origin p settings r (extract_origin p (r.header "origin"))

-- `_has_explicit_bearer_token`: `partition` at the first space, of code 32.
unfoldable pub has_explicit_bearer_token : Platform → Request → Bool
has_explicit_bearer_token p r =
    p.casefold (before 32 (given (r.header "authorization"))) == "bearer"
    && not (is_empty (strip (behind 32 (given (r.header "authorization")))))

abbrev pub double_submitted : Option String → Request → Result (Unit {0})
double_submitted csrf_header r =
    if verify_csrf_token csrf_header (r.cookie csrf_cookie_name)
    then ok tt
    else err (app (Exceptions.auth invalid_csrf_token))

unfoldable pub require_csrf_token : Platform → Option String → Request → Result (Unit {0})
unfolding has_explicit_bearer_token
require_csrf_token p csrf_header r =
    if has_explicit_bearer_token p r
    then ok tt
    else if is_none (r.cookie access_cookie_name)
    then ok tt
    else double_submitted csrf_header r

unfoldable pub require_browser_csrf_token : Option String → Request → Result (Unit {0})
require_browser_csrf_token csrf_header r =
    if is_none (r.cookie access_cookie_name) && is_none (r.cookie refresh_cookie_name)
    then ok tt
    else double_submitted csrf_header r
