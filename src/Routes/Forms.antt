-- ===== src/Routes/Forms.antt =====
-- api/v1/routes/oauth.py and schemas/oauth.py: how the parameters of an authorization or a token
-- request are checked. A parameter that was not sent is `none`.
pub mod Checked
use Prim.Native.String.{count}
use todo_api.Base.{
  ℕ, String, Bool, true, false, not, ◌&&◌, ◌||◌, ◌==◌, string_eq, nat_eq, leb, Option, none, some,
  if◌then◌else◌,
}
use todo_api.Text.{is_empty}
use todo_api.Text.Split.{contains_char, all_chars}
use todo_api.Text.Url.{Url, urlsplit}
use todo_api.Exceptions
use todo_api.Exceptions.{app}
use todo_api.Exceptions.Oauth.{
  OauthError, unsupported_response_type, unsupported_code_challenge_method, invalid_code_challenge,
  invalid_oauth_client, invalid_authorization_request, unsupported_grant_type,
  invalid_authorization_grant,
}
use todo_api.Results.{Result, ok, err}
use todo_api.Platform.{Platform}
use todo_api.Tokens.{given}
use todo_api.Services.OauthFlow.{AuthorizationRequest, TokenRequest}

-- `Field(min_length=…, max_length=…)`
abbrev pub has_size : ℕ → ℕ → String → Bool
has_size least most s = leb least (count s) && leb (count s) most

-- A required field is given and meets its test; an optional one meets it if it is given.
abbrev pub required_field : (String → Bool) → Option String → Bool
required_field good none = false
required_field good (some s) = good s

abbrev pub optional_field : (String → Bool) → Option String → Bool
optional_field good none = true
optional_field good (some s) = good s

abbrev has_scheme : Option Url → Bool
has_scheme none = false
has_scheme (some u) = not (is_empty u.scheme)

-- `OAuthRedirectUriSchema`: the size, and `validate_redirect_uri`, where a `ValueError` of `urlsplit` is
-- one of the schema.
unfoldable pub valid_redirect_uri : Platform → String → Bool
valid_redirect_uri p value =
    has_size 1 2048 value && has_scheme (urlsplit p value) && not (contains_char b'#' value)

abbrev pub is_alphanumeric : ℕ → Bool
is_alphanumeric c =
    (leb b'A' c && leb c b'Z') || (leb b'a' c && leb c b'z') || (leb b'0' c && leb c b'9')

-- `[A-Za-z0-9_-]+`
unfoldable pub valid_code_challenge : String → Bool
valid_code_challenge s =
    has_size 43 43 s && all_chars (λ c. is_alphanumeric c || c == b'_' || c == b'-') s

-- `[A-Za-z0-9\-._~]+`
unfoldable pub valid_code_verifier : String → Bool
valid_code_verifier s =
    has_size 43 128 s
    && all_chars (λ c. is_alphanumeric c || c == b'-' || c == b'.' || c == b'_' || c == b'~') s

-- The parameters of the authorization endpoint.
pub record AuthorizationForm : Type 0 where
  pub response_type : Option String
  pub client_id : Option String
  pub redirect_uri : Option String
  pub state : Option String
  pub code_challenge : Option String
  pub code_challenge_method : Option String
  pub scope : Option String

abbrev pub refuse : {A : Type 0} → OauthError → Result A
refuse e = err (app (Exceptions.oauth e))

-- The tests of the schema's fields.
unfoldable pub has_method : AuthorizationForm → Bool
has_method form = required_field (λ s. s == "S256") form.code_challenge_method

unfoldable pub has_challenge : AuthorizationForm → Bool
unfolding valid_code_challenge
has_challenge form = required_field valid_code_challenge form.code_challenge

unfoldable pub has_client : Option String → Bool
has_client client_id = required_field (has_size 1 128) client_id

unfoldable pub has_redirect_uri : Platform → Option String → Bool
unfolding valid_redirect_uri
has_redirect_uri p uri = required_field (valid_redirect_uri p) uri

unfoldable pub has_others : AuthorizationForm → Bool
has_others form =
    required_field (λ s. s == "code") form.response_type
    && optional_field (has_size 1 512) form.state
    && has_size 0 2048 (given form.scope)

abbrev pub authorization_of : AuthorizationForm → AuthorizationRequest
authorization_of form = record {
  client_id = given form.client_id;
  redirect_uri = given form.redirect_uri;
  state = form.state;
  code_challenge = given form.code_challenge;
  scope = given form.scope;
}

-- `OAuthAuthorizationRequestSchema.model_validate`, whose errors are told apart by their fields.
abbrev pub validated_authorization : Platform → AuthorizationForm → Result AuthorizationRequest
validated_authorization p form =
    if not (has_method form)
    then refuse unsupported_code_challenge_method
    else if not (has_challenge form)
    then refuse invalid_code_challenge
    else if not (has_client form.client_id)
    then refuse invalid_oauth_client
    else if has_redirect_uri p form.redirect_uri && has_others form
    then ok (authorization_of form)
    else refuse invalid_authorization_request

unfoldable pub other_response_type : AuthorizationForm → Bool
other_response_type form = not (optional_field (λ s. s == "code") form.response_type)

unfoldable pub other_method : AuthorizationForm → Bool
other_method form = not (optional_field (λ s. s == "S256") form.code_challenge_method)

-- `_authorization_request`
unfoldable pub authorization_request : Platform → AuthorizationForm → Result AuthorizationRequest
authorization_request p form =
    if other_response_type form
    then refuse unsupported_response_type
    else if other_method form
    then refuse unsupported_code_challenge_method
    else validated_authorization p form

-- The parameters of the token endpoint.
pub record TokenForm : Type 0 where
  pub grant_type : Option String
  pub code : Option String
  pub client_id : Option String
  pub redirect_uri : Option String
  pub code_verifier : Option String

-- `OAuthTokenRequestSchema.model_validate`
validated_token : Platform → TokenForm → Result TokenRequest
unfolding valid_code_verifier
validated_token p form =
    if not (has_client form.client_id)
    then refuse invalid_oauth_client
    else if not (required_field valid_code_verifier form.code_verifier)
    then refuse invalid_authorization_grant
    else if required_field (λ s. s == "authorization_code") form.grant_type
        && required_field (has_size 1 512) form.code
        && has_redirect_uri p form.redirect_uri
    then ok (record {
      client_id = given form.client_id;
      redirect_uri = given form.redirect_uri;
      code = given form.code;
      code_verifier = given form.code_verifier;
    })
    else refuse invalid_authorization_request

-- `_token_request`
unfoldable pub token_request : Platform → TokenForm → Result TokenRequest
unfolding validated_token
token_request p form =
    if not (optional_field (λ s. s == "authorization_code") form.grant_type)
    then refuse unsupported_grant_type
    else validated_token p form
