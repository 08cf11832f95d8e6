-- ===== src/Routes/Forms/Checked.antt =====
-- What an authorization request that passes the checks looks like, and how the others are refused.
use Prim.Native.String.{count}
use todo_api.Base.{
  ℕ, String, ◌≡◌, ◌≤◌, refl, ap, ◌∙◌, subst, eq_iff, arith, Bool, true, false, Option, none, some,
  ◌==◌, string_eq, nat_eq, ◌||◌,
}
use todo_api.Text.Split.{all_chars, contains_char}
use todo_api.Exceptions
use todo_api.Exceptions.{Raised, app}
use todo_api.Exceptions.Handlers.{is_protocol_error}
use todo_api.Results.{ok, err}
use todo_api.Platform.{Platform}
use todo_api.Tokens.{given}
use todo_api.Services.OauthFlow.{AuthorizationRequest}
use todo_api.Routes.Forms.{
  AuthorizationForm, required_field, optional_field, has_size, has_method, has_challenge,
  has_client, has_redirect_uri, has_others, authorization_of, authorization_request,
  valid_redirect_uri, valid_code_challenge, is_alphanumeric,
}

-- A state is absent, or of 1 to 512 characters.
abbrev pub HasStateSize : Option String → Type 0
HasStateSize none = Unit
HasStateSize (some s) = (1 ≤ count s) × (count s ≤ 512)

-- The bounds of a request.
pub record IsBounded (p : Platform) (form : AuthorizationForm) (request : AuthorizationRequest)
    : Type 0 where
  pub client : form.client_id ≡ some request.client_id
  pub uri : form.redirect_uri ≡ some request.redirect_uri
  pub asks_code : form.response_type ≡ some "code"
  pub method : form.code_challenge_method ≡ some "S256"
  pub client_least : 1 ≤ count request.client_id
  pub client_most : count request.client_id ≤ 128
  pub uri_least : 1 ≤ count request.redirect_uri
  pub uri_most : count request.redirect_uri ≤ 2048
  pub no_fragment : contains_char b'#' request.redirect_uri ≡ false
  pub challenge_size : count request.code_challenge ≡ 43
  pub challenge_alphabet :
      all_chars (λ c. is_alphanumeric c || c == b'_' || c == b'-') request.code_challenge ≡ true
  pub scope_most : count request.scope ≤ 2048
  pub state_size : HasStateSize request.state

required_field-given :
    (good : String → Bool) (o : Option String)
    → required_field good o ≡ true
    → (o ≡ some (given o)) × (good (given o) ≡ true)
required_field-given good none h = absurd (ground arith)
required_field-given good (some s) h = (refl, h)

code_challenge-alphabet :
    (s : String)
    → valid_code_challenge s ≡ true
    → (count s ≡ 43) × (all_chars (λ c. is_alphanumeric c || c == b'_' || c == b'-') s ≡ true)
unfolding valid_code_challenge
code_challenge-alphabet s h = (ground arith, ground arith)

redirect_uri-bounds :
    (p : Platform) (s : String)
    → valid_redirect_uri p s ≡ true
    → (1 ≤ count s) × (count s ≤ 2048) × (contains_char b'#' s ≡ false)
unfolding valid_redirect_uri
redirect_uri-bounds p s h = (ground arith, ground arith, ground arith)

others-bounds :
    (form : AuthorizationForm)
    → has_others form ≡ true
    → (required_field (λ s. s == "code") form.response_type ≡ true)
      × (count (given form.scope) ≤ 2048)
unfolding has_others
others-bounds form h = (ground arith, ground arith)

state-HasStateSize :
    (state : Option String) → optional_field (has_size 1 512) state ≡ true → HasStateSize state
state-HasStateSize none h = tt
state-HasStateSize (some s) h = (ground arith, ground arith)

others-state : (form : AuthorizationForm) → has_others form ≡ true → HasStateSize form.state
unfolding has_others
others-state form h = state-HasStateSize form.state (ground arith)

size-bounds :
    (least most : ℕ) (s : String)
    → has_size least most s ≡ true
    → (least ≤ count s) × (count s ≤ most)
size-bounds least most s h = (ground arith, ground arith)

authorization_request-tests :
    (p : Platform) (form : AuthorizationForm) (request : AuthorizationRequest)
    → authorization_request p form ≡ ok request
    → (has_method form ≡ true)
      × (has_challenge form ≡ true)
      × (has_client form.client_id ≡ true)
      × (has_redirect_uri p form.redirect_uri ≡ true)
      × (has_others form ≡ true)
      × (authorization_of form ≡ request)
unfolding authorization_request
authorization_request-tests p form request h = ground arith

-- Every authorization request that passes the checks keeps the sizes and alphabets of its schema, and
-- asks for a code with a challenge by SHA-256.
pub authorization_request-IsBounded :
    (p : Platform) (form : AuthorizationForm) (request : AuthorizationRequest)
    → authorization_request p form ≡ ok request
    → IsBounded p form request
unfolding has_method has_challenge has_client has_redirect_uri
authorization_request-IsBounded p form request h =
    let (method, challenge, client, uri, others, is) =
      authorization_request-tests p form request h in
    let (client_sent, client_good) = required_field-given (has_size 1 128) form.client_id client in
    let (client_least, client_most) = size-bounds 1 128 (given form.client_id) client_good in
    let (uri_sent, uri_good) = required_field-given (valid_redirect_uri p) form.redirect_uri uri in
    let (uri_least, uri_most, no_fragment) =
      redirect_uri-bounds p (given form.redirect_uri) uri_good in
    let (challenge_sent, challenge_good) =
      required_field-given valid_code_challenge form.code_challenge challenge in
    let (size, alphabet) = code_challenge-alphabet (given form.code_challenge) challenge_good in
    let (type_good, scope_most) = others-bounds form others in
    let (type_sent, type_is) =
      required_field-given (λ s. s == "code") form.response_type type_good in
    let (method_sent, method_is) =
      required_field-given (λ s. s == "S256") form.code_challenge_method method in
    subst (IsBounded p form) is (record {
      client = client_sent;
      uri = uri_sent;
      asks_code = type_sent ∙ ap some ((eq_iff (given form.response_type) "code").0 type_is);
      method =
          method_sent ∙ ap some ((eq_iff (given form.code_challenge_method) "S256").0 method_is);
      client_least = client_least;
      client_most = client_most;
      uri_least = uri_least;
      uri_most = uri_most;
      no_fragment = no_fragment;
      challenge_size = size;
      challenge_alphabet = alphabet;
      scope_most = scope_most;
      state_size = others-state form others;
    })

-- Whether an error is an `OAuthProtocolError`.
abbrev pub is_protocol : Raised → Bool
is_protocol (app (Exceptions.oauth o)) = is_protocol_error o
is_protocol _ = false

-- Every failure of the checks is an `OAuthProtocolError`.
pub authorization_request-refuses :
    (p : Platform) (form : AuthorizationForm) (e : Raised)
    → authorization_request p form ≡ err e
    → is_protocol e ≡ true
unfolding authorization_request is_protocol_error
authorization_request-refuses p form e h = ground arith
