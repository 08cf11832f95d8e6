-- ===== src/Routes/Oauth.antt =====
-- api/v1/routes/oauth.py: the authorization and the token endpoint.
pub mod Redirects
use todo_api.Base.{
  ℕ, String, Bool, true, false, not, ◌&&◌, ◌==◌, string_eq, Option, none, some, List, [], ◌∷◌, ◌++◌,
  if◌then◌else◌,
}
use todo_api.Text.{is_empty}
use todo_api.Text.Url.{Url, urlsplit, urlunsplit}
use todo_api.Exceptions
use todo_api.Exceptions.{app, value_error, Raised}
use todo_api.Exceptions.Auth.{
  AuthError, invalid_credentials, invalid_basic_credentials, inactive_user, email_not_verified,
}
use todo_api.Exceptions.Oauth.{
  OauthError, oauth_error, public_message, invalid_oauth_client,
  authorization_code_issuance_unavailable,
}
use todo_api.Exceptions.Handlers.{is_protocol_error}
use todo_api.Results.{Result, ok, err}
use todo_api.Results
use todo_api.Database.{Action, ◌>>=◌, ◌>>◌, pure, raise_if, lift}
use todo_api.Config.{Settings}
use todo_api.Platform.{Platform}
use todo_api.Tokens.{TokenResponse, given}
use todo_api.Tokens.Create.{Nonces}
use todo_api.Services.OauthFlow.{
  AuthorizationRequest, is_among, validate_authorization_request, issue_authorization_code,
  exchange_authorization_code,
}
use todo_api.Routes.Forms.{AuthorizationForm, TokenForm, authorization_request, token_request}
use todo_api.Routes.LoginPage.{no_store_headers, html_headers, login_page}

-- `HTMLResponse` and `RedirectResponse`.
pub data Page : Type 0 where
  html : String → List (String × String) → Page
  redirect : ℕ → String → List (String × String) → Page

-- The arguments that are not `None`.
abbrev pub present : List (String × Option String) → List (String × String)
present [] = []
present ((key, none) ∷ values) = present values
present ((key, some value) ∷ values) = (key, value) ∷ present values

abbrev extended : Platform → List (String × Option String) → Option Url → Result String
extended p values none = err value_error
extended p values (some u) =
    ok (urlunsplit (record u { query = p.urlencode (p.parse_qsl u.query ++ present values) }))

-- `_append_query`
unfoldable pub append_query : Platform → String → List (String × Option String) → Result String
append_query p uri values = extended p values (urlsplit p uri)

-- `value == text` where the value may be `None`
abbrev is_text : String → Option String → Bool
is_text s none = false
is_text s (some t) = t == s

abbrev is_registered : Settings → Option String → Bool
is_registered settings none = false
is_registered settings (some uri) = is_among uri settings.oauth2_redirect_uris

-- `_has_trusted_redirect`
unfoldable pub has_trusted_redirect : Settings → AuthorizationForm → Bool
has_trusted_redirect settings form =
    is_text settings.oauth2_public_client_id form.client_id
    && is_registered settings form.redirect_uri

abbrev pub error_values : OauthError → Option String → List (String × Option String)
error_values e state =
    ("error", some (oauth_error e))
    ∷ ("error_description", some (public_message e))
    ∷ ("state", state)
    ∷ []

abbrev pub redirected : ℕ → Result String → Result Page
redirected status (err e) = err e
redirected status (ok location) = ok (redirect status location no_store_headers)

-- `_redirect_authorization_error`
unfoldable pub redirect_authorization_error :
    Platform → Settings → AuthorizationForm → OauthError → Result Page
unfolding has_trusted_redirect append_query
redirect_authorization_error p settings form e =
    if not (has_trusted_redirect settings form)
    then err (app (Exceptions.oauth e))
    else redirected 302 (append_query p (given form.redirect_uri) (error_values e form.state))

-- An error that is an `OAuthProtocolError` is redirected.
abbrev pub redirect_protocol : Platform → Settings → AuthorizationForm → OauthError → Result Page
redirect_protocol p settings form e =
    if is_protocol_error e
    then redirect_authorization_error p settings form e
    else err (app (Exceptions.oauth e))

-- `except OAuthProtocolError`
abbrev pub except_protocol : Platform → Settings → AuthorizationForm → Result Page → Result Page
except_protocol p settings form (err (app (Exceptions.oauth e))) =
    redirect_protocol p settings form e
except_protocol p settings form r = r

abbrev pub shown : AuthorizationRequest → String → Page
shown request error = html (login_page request error) html_headers

abbrev pub checked_page : Settings → Result AuthorizationRequest → Result Page
checked_page settings (err e) = err e
checked_page settings (ok request) = elim (validate_authorization_request settings request) [
  | err e ↦ err e
  | ok done ↦ ok (shown request String.[])
]

unfoldable pub authorization_page : Platform → Settings → AuthorizationForm → Result Page
authorization_page p settings form =
    except_protocol p settings form (checked_page settings (authorization_request p form))

-- What answers the failure of the service: the page again, a redirect, or the error itself.
abbrev pub answer_failure :
    Platform → Settings → AuthorizationForm → AuthorizationRequest → Raised → Result Page
answer_failure p settings form request (app (Exceptions.auth invalid_credentials)) =
    ok (shown request "Invalid email or password.")
answer_failure p settings form request (app (Exceptions.auth invalid_basic_credentials)) =
    ok (shown request "Invalid email or password.")
answer_failure p settings form request (app (Exceptions.auth inactive_user)) =
    ok (shown request "Invalid email or password.")
answer_failure p settings form request (app (Exceptions.auth email_not_verified)) =
    ok (shown request "Invalid email or password.")
answer_failure p settings form request
      (app (Exceptions.oauth authorization_code_issuance_unavailable)) =
    redirect_authorization_error p settings form authorization_code_issuance_unavailable
answer_failure p settings form request (app (Exceptions.oauth e)) =
    redirect_protocol p settings form e
answer_failure p settings form request e = err e

abbrev pub answer :
    Platform → Settings → AuthorizationForm → AuthorizationRequest → Result String → Result Page
answer p settings form request (err e) = answer_failure p settings form request e
answer p settings form request (ok code) =
    redirected 303
      (append_query p request.redirect_uri (("code", some code) ∷ ("state", request.state) ∷ []))

abbrev pub authorize_request :
    Platform
    → Settings
    → String
    → String
    → String
    → AuthorizationForm
    → String
    → ℕ
    → Result AuthorizationRequest
    → Action Page
authorize_request p settings dummy email password form raw_code now (err e) s =
    (except_protocol p settings form (err e), s)
authorize_request p settings dummy email password form raw_code now (ok request) s =
    let (r, s') = issue_authorization_code p settings dummy email password request raw_code now s in
    (answer p settings form request r, s')

unfoldable pub authorize :
    Platform → Settings → String → String → String → AuthorizationForm → String → ℕ → Action Page
authorize p settings dummy email password form raw_code now =
    authorize_request p settings dummy email password form raw_code now
      (authorization_request p form)

-- The tokens come with `no_store_headers`. `authorization` is the request's header.
unfoldable pub exchange_code :
    Platform
    → Settings
    → Nonces
    → Option String
    → TokenForm
    → ℕ
    → ℕ
    → Action (TokenResponse × List (String × String))
unfolding token_request
exchange_code p settings nonces authorization form now checked_at = do
  raise_if (not (is_empty (given authorization))) (Exceptions.oauth invalid_oauth_client)
  request ← lift (token_request p form)
  tokens ← exchange_authorization_code p settings nonces request now checked_at
  pure (tokens, no_store_headers)
