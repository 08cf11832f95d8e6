-- ===== src/Routes/Tests.antt =====
-- The routes, each at a concrete request.
use todo_api.Base.{◌≡◌, ◌⊎◌, refl, arith, none, some, [], string_eq, nat_eq}
use todo_api.Text.{strip, is_space}
use todo_api.Text.Split.{
  cut, span, without_chars, all_chars, drop_leading, drop_chars, starts_with, contains_char,
}
use todo_api.Text.Url.{urlsplit, urlunsplit, cleaned, split_scheme, split_netloc}
use todo_api.Exceptions.{value_error}
use todo_api.Results.{ok, err}
use todo_api.Database.{Session, run, next_answer, later_answers}
use todo_api.Repositories.User.{get_user_by_email}
use todo_api.Repositories.Oauth.{create_authorization_code, prune_expired_authorization_codes}
use todo_api.Services.Accounts.{
  UserCreate, register_pending_verification, authenticate, normalize_email,
}
use todo_api.Services.OauthFlow.{
  AuthorizationRequest, issue_authorization_code, validate_authorization_request,
}
use todo_api.Tokens.{hash_secret}
use todo_api.Cookies.{Attributes, SetCookie}
use todo_api.Dependencies.Browser.{csrf_cookie_name}
use todo_api.Dependencies.Browser.Guards.{IsDoubleSubmitted}
use todo_api.Dependencies.Tests.{shared_settings, browser_request}
use todo_api.Routes.Forms.{
  AuthorizationForm, authorization_request, has_method, has_challenge, has_client, has_redirect_uri,
  has_others, other_response_type, other_method, valid_redirect_uri, valid_code_challenge,
}
use todo_api.Routes.Forms.Checked.{IsBounded, authorization_request-IsBounded}
use todo_api.Routes.LoginPage.{login_page, no_store_headers}
use todo_api.Routes.LoginPage.Markup.{login_page-markup}
use todo_api.Text.Markup.{markup}
use todo_api.Routes.Oauth.{redirect, append_query, authorize}
use todo_api.Routes.Oauth.Redirects.{IsRegistered, authorize-redirects}
use todo_api.Routes.Guarded.{Call}
use todo_api.Routes.Todos.Writes.{removes, write, IsWritten, write-IsWritten}
use todo_api.Routes.Auth.{register, refresh_browser_session, logout_browser_session}
use todo_api.Routes.Auth.Forgery.{IsAnswered, browser_session-IsDoubleSubmitted, register-broker}
use todo_api.Dispatch.{Broker}
use todo_api.Samples.{settings, plain_platform, plain_server, tables, nonces}

abbrev call : Call
call = record { request = browser_request; token = none; csrf_header = some "c1"; now = 2000000 }

write-IsWritten_example :
    IsWritten plain_platform shared_settings call tables
      (write plain_platform shared_settings call (removes 1) [] tables)
write-IsWritten_example =
    write-IsWritten plain_platform shared_settings call [] tables plain_server (removes 1)
      (((λ e. absurd (ground arith)), tt), (tt, tt))

-- What a client sends to sign a user in.
abbrev form : AuthorizationForm
form = record {
  response_type = some "code";
  client_id = some "web";
  redirect_uri = some "app:/callback";
  state = some "x";
  code_challenge = some "0123456789012345678901234567890123456789abc";
  code_challenge_method = some "S256";
  scope = none;
}

abbrev request : AuthorizationRequest
request = record {
  client_id = "web";
  redirect_uri = "app:/callback";
  state = some "x";
  code_challenge = "0123456789012345678901234567890123456789abc";
  scope = "";
}

passes : authorization_request plain_platform form ≡ ok request
unfolding authorization_request has_method has_challenge has_client has_redirect_uri has_others
    other_response_type other_method valid_redirect_uri valid_code_challenge urlsplit cleaned
    split_scheme split_netloc cut span without_chars all_chars drop_leading drop_chars starts_with
    contains_char
passes = refl

authorization_request-IsBounded_example : IsBounded plain_platform form request
authorization_request-IsBounded_example =
    authorization_request-IsBounded plain_platform form request passes

abbrev fresh : Session
fresh = record { db = tables; stored = tables; answers = [] }

redirects_code :
    (authorize plain_platform settings "" "ann@example.com" "hash:secret" form "raw" 9 fresh).0
    ≡ ok (redirect 303 "app:/callback?code=raw&state=x&" no_store_headers)
unfolding authorize issue_authorization_code authenticate get_user_by_email normalize_email
    create_authorization_code prune_expired_authorization_codes validate_authorization_request
    append_query authorization_request has_method has_challenge has_client has_redirect_uri
    has_others other_response_type other_method valid_redirect_uri valid_code_challenge urlsplit
    urlunsplit cleaned split_scheme split_netloc cut span without_chars all_chars drop_leading
    drop_chars starts_with contains_char strip is_space next_answer later_answers hash_secret
redirects_code = refl

authorize-redirects_example : IsRegistered plain_platform settings "app:/callback?code=raw&state=x&"
authorize-redirects_example =
    authorize-redirects plain_platform settings "" "ann@example.com" "hash:secret" form "raw" 9
      fresh 303 "app:/callback?code=raw&state=x&" no_store_headers redirects_code

abbrev odd_request : AuthorizationRequest
odd_request = record request { state = some "\"><script>"; scope = "'" }

login_page-markup_example :
    markup (login_page request "<b>") ≡ markup (login_page odd_request "<b>")
login_page-markup_example = login_page-markup request odd_request "<b>" refl

abbrev forget : Attributes → SetCookie
forget a = record { attributes = a; value = ""; max_age = 0; expires = none }

browser_session-IsDoubleSubmitted_example :
    let refreshed =
      run
        (refresh_browser_session plain_platform settings nonces browser_request
          (some "c1")
          "c2"
          2000000
          2000000
          2000000)
        []
        tables in
    let left =
      run
        (logout_browser_session plain_platform forget settings browser_request (some "c1") 2000000)
        []
        tables in
    ((refreshed.1 ≡ tables) × (left.1 ≡ tables))
    ⊎ IsDoubleSubmitted (some "c1") (browser_request.cookie csrf_cookie_name)
browser_session-IsDoubleSubmitted_example =
    browser_session-IsDoubleSubmitted plain_platform forget settings browser_request (some "c1") []
      tables nonces "c2" 2000000 2000000 2000000

abbrev newcomer : UserCreate
newcomer = record { email = "bob@example.com"; full_name = none; password = "secret123" }

-- A broker that is not reached.
abbrev unreached : Broker
unreached task = err value_error

register-broker_example :
    let pending =
      run (register_pending_verification plain_platform settings 9 newcomer "token" 5) [] tables in
    let out = run (register plain_platform settings unreached "r" 9 newcomer "token" 5) [] tables in
    (out.1 ≡ pending.1) × IsAnswered unreached "r" pending.0 out.0
register-broker_example =
    register-broker plain_platform settings unreached "r" 9 newcomer "token" 5 [] tables
