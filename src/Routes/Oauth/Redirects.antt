-- ===== src/Routes/Oauth/Redirects.antt =====
-- Where the authorization endpoint sends a browser.
use todo_api.Base.{
  ℕ, String, ◌≡◌, arith, true, Option, some, List, [], ◌∷◌, ◌++◌, Bool-cases, Option-cases, inl,
  inr,
}
use todo_api.Exceptions
use todo_api.Exceptions.{Raised, app}
use todo_api.Exceptions.Oauth.{OauthError, authorization_code_issuance_unavailable}
use todo_api.Exceptions.Handlers.{is_protocol_error}
use todo_api.Results.{Result, ok, err, Result-cases}
use todo_api.Database.{Session}
use todo_api.Config.{Settings}
use todo_api.Platform.{Platform}
use todo_api.Text.Url.{Url, urlsplit, urlunsplit}
use todo_api.Tokens.{given}
use todo_api.Services.OauthFlow.{
  AuthorizationRequest, is_among, validate_authorization_request, issue_authorization_code,
}
use todo_api.Routes.Forms.{AuthorizationForm, authorization_request}
use todo_api.Routes.Oauth.{
  redirect, append_query, has_trusted_redirect, redirect_authorization_error, except_protocol,
  redirected, redirect_protocol, authorization_page, authorize, answer, answer_failure,
  error_values, present,
}

-- The location is a configured redirect URI with pairs added to its query: scheme, network location,
-- path and fragment are those of the configured URI.
pub record IsRegistered (p : Platform) (settings : Settings) (location : String) : Type 0 where
  pub uri : String
  pub parts : Url
  pub added : List (String × String)
  pub registered : is_among uri settings.oauth2_redirect_uris ≡ true
  pub splits : urlsplit p uri ≡ some parts
  pub extends :
      location
      ≡ urlunsplit (record {
        scheme = parts.scheme;
        netloc = parts.netloc;
        path = parts.path;
        query = p.urlencode (p.parse_qsl parts.query ++ added);
        fragment = parts.fragment;
      })

append_query-IsRegistered :
    (p : Platform) (settings : Settings) (uri : String) (values : List (String × Option String))
    (location : String)
    → is_among uri settings.oauth2_redirect_uris ≡ true
    → append_query p uri values ≡ ok location
    → IsRegistered p settings location
unfolding append_query
append_query-IsRegistered p settings uri values location among h =
    elim (Option-cases (urlsplit p uri)) [
      | inl malformed ↦ absurd (ground arith)
      | inr (parts, splits) ↦ record {
        uri = uri;
        parts = parts;
        added = present values;
        registered = among;
        splits = splits;
        extends = ground arith;
      }
    ]

redirected-location :
    (status status' : ℕ) (r : Result String) (location : String) (headers : List (String × String))
    → redirected status r ≡ ok (redirect status' location headers)
    → r ≡ ok location
redirected-location status status' (err e) location headers h = absurd (ground arith)
redirected-location status status' (ok l) location headers h = ground arith

has_trusted_redirect-registered :
    (settings : Settings) (form : AuthorizationForm)
    → has_trusted_redirect settings form ≡ true
    → is_among (given form.redirect_uri) settings.oauth2_redirect_uris ≡ true
unfolding has_trusted_redirect
has_trusted_redirect-registered settings form h = elim (Option-cases form.redirect_uri) [
  | inl missing ↦ absurd (ground arith)
  | inr (uri, sent) ↦ ground arith
]

module _ (p : Platform) (settings : Settings) (form : AuthorizationForm) (status : ℕ)
    (location : String) (headers : List (String × String)) where
  error-IsRegistered :
      (e : OauthError)
      → redirect_authorization_error p settings form e ≡ ok (redirect status location headers)
      → IsRegistered p settings location
  unfolding redirect_authorization_error
  error-IsRegistered e h = elim (Bool-cases (has_trusted_redirect settings form)) [
    | inr untrusted ↦ absurd (ground arith)
    | inl trusted ↦
        append_query-IsRegistered p settings (given form.redirect_uri) (error_values e form.state)
          location (has_trusted_redirect-registered settings form trusted)
          (redirected-location 302 status _ location headers (ground arith))
  ]

  protocol-IsRegistered :
      (e : OauthError)
      → redirect_protocol p settings form e ≡ ok (redirect status location headers)
      → IsRegistered p settings location
  protocol-IsRegistered e h = elim (Bool-cases (is_protocol_error e)) [
    | inr other ↦ absurd (ground arith)
    | inl is ↦ error-IsRegistered e (ground arith)
  ]

  except_protocol-IsRegistered :
      (e : Raised)
      → except_protocol p settings form (err e) ≡ ok (redirect status location headers)
      → IsRegistered p settings location
  except_protocol-IsRegistered (app (Exceptions.oauth e)) h = protocol-IsRegistered e h
  except_protocol-IsRegistered _ h = absurd (ground arith)

  failure-IsRegistered :
      (request : AuthorizationRequest) (e : Raised)
      → answer_failure p settings form request e ≡ ok (redirect status location headers)
      → IsRegistered p settings location
  failure-IsRegistered request (app (Exceptions.oauth authorization_code_issuance_unavailable)) h =
      error-IsRegistered authorization_code_issuance_unavailable h
  failure-IsRegistered request (app (Exceptions.oauth e)) h = protocol-IsRegistered e h
  failure-IsRegistered request _ h = absurd (ground arith)

  answer-IsRegistered :
      (request : AuthorizationRequest) (r : Result String)
      → is_among request.redirect_uri settings.oauth2_redirect_uris ≡ true
      → answer p settings form request r ≡ ok (redirect status location headers)
      → IsRegistered p settings location
  answer-IsRegistered request (err e) among h = failure-IsRegistered request e h
  answer-IsRegistered request (ok code) among h =
      append_query-IsRegistered p settings request.redirect_uri
        (("code", some code) ∷ ("state", request.state) ∷ []) location among
        (redirected-location 303 status _ location headers h)

validate-among :
    (settings : Settings) (request : AuthorizationRequest)
    → validate_authorization_request settings request ≡ ok tt
    → is_among request.redirect_uri settings.oauth2_redirect_uris ≡ true
unfolding validate_authorization_request
validate-among settings request h = ground arith

-- A request that the service refuses is not issued a code.
refused_issue :
    (p : Platform) (settings : Settings) (dummy email password : String)
    (request : AuthorizationRequest) (raw_code : String) (now : ℕ) (s : Session) (e : Raised)
    → validate_authorization_request settings request ≡ err e
    → (issue_authorization_code p settings dummy email password request raw_code now s).0 ≡ err e
unfolding issue_authorization_code
refused_issue p settings dummy email password request raw_code now s e refused = ground arith

-- The authorization page redirects a browser only to a configured redirect URI, by pairs added to its
-- query.
pub authorization_page-redirects :
    (p : Platform) (settings : Settings) (form : AuthorizationForm) (status : ℕ) (location : String)
    (headers : List (String × String))
    → authorization_page p settings form ≡ ok (redirect status location headers)
    → IsRegistered p settings location
unfolding authorization_page
authorization_page-redirects p settings form status location headers h =
    elim (Result-cases (authorization_request p form)) [
      | inr (e, refused) ↦
          except_protocol-IsRegistered p settings form status location headers e (ground arith)
      | inl (request, read) ↦
          elim (Result-cases (validate_authorization_request settings request)) [
            | inr (e, refused) ↦
                except_protocol-IsRegistered p settings form status location headers e
                  (ground arith)
            | inl (done, valid) ↦ absurd (ground arith)
          ]
    ]

-- Signing in redirects a browser, with a code or with an error, only to a configured redirect URI with
-- pairs added to its query, whatever the request and whatever the database answers: scheme, network
-- location, path and fragment are those of the configured URI.
pub authorize-redirects :
    (p : Platform) (settings : Settings) (dummy email password : String) (form : AuthorizationForm)
    (raw_code : String) (now : ℕ) (s : Session) (status : ℕ) (location : String)
    (headers : List (String × String))
    → (authorize p settings dummy email password form raw_code now s).0
      ≡ ok (redirect status location headers)
    → IsRegistered p settings location
unfolding authorize
authorize-redirects p settings dummy email password form raw_code now s status location headers h =
    elim (Result-cases (authorization_request p form)) [
      | inr (e, refused) ↦
          except_protocol-IsRegistered p settings form status location headers e (ground arith)
      | inl (request, read) ↦
          let out =
            (issue_authorization_code p settings dummy email password request raw_code now s).0 in
          elim (Result-cases (validate_authorization_request settings request)) [
            | inr (e, refused) ↦
                failure-IsRegistered p settings form status location headers request e (
                  ground (
                    arith,
                    refused_issue p settings dummy email password request raw_code now s e refused,
                  ))
            | inl (done, valid) ↦
                answer-IsRegistered p settings form status location headers request out
                  (validate-among settings request valid) (ground arith)
          ]
    ]
