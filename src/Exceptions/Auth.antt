-- ===== src/Exceptions/Auth.antt =====
-- exceptions/auth.py: the classes, the class that each extends, and the fields that clients see.
use todo_api.Base.{String, Option, none, some}

pub data AuthError : Type 0 where
  auth_service : AuthError
  email_already_registered : AuthError
  registration_unavailable : AuthError
  email_not_verified : AuthError
  invalid_email_verification_token : AuthError
  email_verification_unavailable : AuthError
  invalid_credentials : AuthError
  invalid_basic_credentials : AuthError
  basic_authentication_unavailable : AuthError
  inactive_user : AuthError
  invalid_access_token : AuthError
  invalid_refresh_token : AuthError
  invalid_csrf_token : AuthError
  request_origin_not_allowed : AuthError
  refresh_token_reuse_detected : AuthError
  login_session_unavailable : AuthError
  token_authentication_unavailable : AuthError
  token_refresh_unavailable : AuthError
  logout_unavailable : AuthError

-- The base class, where it is one of this file; the others extend `ApplicationError`.
unfoldable pub base : AuthError → Option AuthError
base auth_service = none
base email_already_registered = some auth_service
base registration_unavailable = some auth_service
base email_not_verified = some auth_service
base invalid_email_verification_token = some auth_service
base email_verification_unavailable = some auth_service
base invalid_credentials = some auth_service
base invalid_basic_credentials = some invalid_credentials
base basic_authentication_unavailable = some auth_service
base inactive_user = some auth_service
base invalid_access_token = some auth_service
base invalid_refresh_token = some auth_service
base invalid_csrf_token = some auth_service
base request_origin_not_allowed = some auth_service
base refresh_token_reuse_detected = some invalid_refresh_token
base login_session_unavailable = some auth_service
base token_authentication_unavailable = some auth_service
base token_refresh_unavailable = some auth_service
base logout_unavailable = some auth_service

unfoldable pub error_code : AuthError → String
error_code auth_service = "auth_service_error"
error_code email_already_registered = "email_already_registered"
error_code registration_unavailable = "registration_unavailable"
error_code email_not_verified = "email_not_verified"
error_code invalid_email_verification_token = "invalid_email_verification_token"
error_code email_verification_unavailable = "email_verification_unavailable"
error_code invalid_credentials = "invalid_credentials"
error_code invalid_basic_credentials = "invalid_basic_credentials"
error_code basic_authentication_unavailable = "basic_authentication_unavailable"
error_code inactive_user = "inactive_user"
error_code invalid_access_token = "invalid_access_token"
error_code invalid_refresh_token = "invalid_refresh_token"
error_code invalid_csrf_token = "invalid_csrf_token"
error_code request_origin_not_allowed = "request_origin_not_allowed"
error_code refresh_token_reuse_detected = "refresh_token_reuse_detected"
error_code login_session_unavailable = "login_session_unavailable"
error_code token_authentication_unavailable = "token_authentication_unavailable"
error_code token_refresh_unavailable = "token_refresh_unavailable"
error_code logout_unavailable = "logout_unavailable"

unfoldable pub public_message : AuthError → String
public_message auth_service = "Authentication operation failed."
public_message email_already_registered = "A user with this email already exists."
public_message registration_unavailable = "Registration could not be completed."
public_message email_not_verified = "Email verification is required before signing in."
public_message invalid_email_verification_token =
    "The email verification link is invalid or expired."
public_message email_verification_unavailable = "Email verification is temporarily unavailable."
public_message invalid_credentials = "Incorrect email or password."
public_message invalid_basic_credentials = "Invalid Basic authentication credentials."
public_message basic_authentication_unavailable = "Basic authentication could not be completed."
public_message inactive_user = "User account is inactive."
public_message invalid_access_token = "Access token is invalid or expired."
public_message invalid_refresh_token = "Refresh token is invalid or expired."
public_message invalid_csrf_token = "CSRF token is missing or invalid."
public_message request_origin_not_allowed = "Request origin is not allowed."
public_message refresh_token_reuse_detected = "Refresh token reuse was detected. Sign in again."
public_message login_session_unavailable = "Login could not be completed."
public_message token_authentication_unavailable = "Token authentication could not be completed."
public_message token_refresh_unavailable = "Token refresh could not be completed."
public_message logout_unavailable = "Logout could not be completed."
