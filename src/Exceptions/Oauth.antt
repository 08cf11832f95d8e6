-- ===== src/Exceptions/Oauth.antt =====
-- exceptions/oauth.py: the classes, the class that each extends, and the fields that clients see.
use todo_api.Base.{String, Option, none, some}

pub data OauthError : Type 0 where
  oauth_service : OauthError
  oauth_protocol : OauthError
  invalid_authorization_request : OauthError
  unsupported_response_type : OauthError
  invalid_oauth_client : OauthError
  invalid_redirect_uri : OauthError
  unsupported_code_challenge_method : OauthError
  invalid_code_challenge : OauthError
  invalid_scope : OauthError
  unsupported_grant_type : OauthError
  invalid_authorization_grant : OauthError
  authorization_code_issuance_unavailable : OauthError
  authorization_code_exchange_unavailable : OauthError

-- The base class, where it is one of this file; the others extend `ApplicationError`.
unfoldable pub base : OauthError → Option OauthError
base oauth_service = none
base oauth_protocol = some oauth_service
base invalid_authorization_request = some oauth_protocol
base unsupported_response_type = some oauth_protocol
base invalid_oauth_client = some oauth_protocol
base invalid_redirect_uri = some oauth_protocol
base unsupported_code_challenge_method = some oauth_protocol
base invalid_code_challenge = some oauth_protocol
base invalid_scope = some oauth_protocol
base unsupported_grant_type = some oauth_protocol
base invalid_authorization_grant = some oauth_protocol
base authorization_code_issuance_unavailable = some oauth_service
base authorization_code_exchange_unavailable = some oauth_service

unfoldable pub error_code : OauthError → String
error_code oauth_service = "oauth_service_error"
error_code oauth_protocol = "oauth_protocol_error"
error_code invalid_authorization_request = "invalid_authorization_request"
error_code unsupported_response_type = "unsupported_response_type"
error_code invalid_oauth_client = "invalid_oauth_client"
error_code invalid_redirect_uri = "invalid_redirect_uri"
error_code unsupported_code_challenge_method = "unsupported_code_challenge_method"
error_code invalid_code_challenge = "invalid_code_challenge"
error_code invalid_scope = "invalid_oauth_scope"
error_code unsupported_grant_type = "unsupported_grant_type"
error_code invalid_authorization_grant = "invalid_authorization_grant"
error_code authorization_code_issuance_unavailable = "authorization_code_issuance_unavailable"
error_code authorization_code_exchange_unavailable = "authorization_code_exchange_unavailable"

unfoldable pub public_message : OauthError → String
public_message oauth_service = "OAuth operation failed."
public_message oauth_protocol = "The authorization server could not process the request."
public_message invalid_authorization_request = "The authorization request is invalid."
public_message unsupported_response_type = "Only response_type=code is supported."
public_message invalid_oauth_client = "The OAuth client is invalid."
public_message invalid_redirect_uri = "The redirect_uri is not registered for this client."
public_message unsupported_code_challenge_method =
    "Only the S256 PKCE code challenge method is supported."
public_message invalid_code_challenge = "The PKCE code_challenge is invalid."
public_message invalid_scope = "The requested OAuth scope is not supported."
public_message unsupported_grant_type = "Only grant_type=authorization_code is supported."
public_message invalid_authorization_grant = "The authorization code or PKCE verifier is invalid."
public_message authorization_code_issuance_unavailable =
    "The authorization code could not be issued."
public_message authorization_code_exchange_unavailable =
    "The authorization code could not be exchanged."

-- A class that does not set it inherits `server_error`.
unfoldable pub oauth_error : OauthError → String
oauth_error oauth_service = "server_error"
oauth_error oauth_protocol = "server_error"
oauth_error invalid_authorization_request = "invalid_request"
oauth_error unsupported_response_type = "unsupported_response_type"
oauth_error invalid_oauth_client = "invalid_client"
oauth_error invalid_redirect_uri = "invalid_request"
oauth_error unsupported_code_challenge_method = "invalid_request"
oauth_error invalid_code_challenge = "invalid_request"
oauth_error invalid_scope = "invalid_scope"
oauth_error unsupported_grant_type = "unsupported_grant_type"
oauth_error invalid_authorization_grant = "invalid_grant"
oauth_error authorization_code_issuance_unavailable = "server_error"
oauth_error authorization_code_exchange_unavailable = "server_error"
