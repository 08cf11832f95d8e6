-- ===== src/Exceptions/Challenge.antt =====
-- Error responses and the challenge that HTTP asks for in a 401.
use todo_api.Base.{◌≡◌, ◌==◌, nat_eq, is_some, refl}
use todo_api.Exceptions.{
  ApplicationError, application, auth, oauth, todo, user, api_key, email_service_unavailable,
}
use todo_api.Exceptions.Auth
use todo_api.Exceptions.Oauth
use todo_api.Exceptions.Todo
use todo_api.Exceptions.User
use todo_api.Exceptions.ApiKey
use todo_api.Exceptions.Handlers.{config_for}

-- For every error of the program, the response that the table of errors and the classes above the
-- error's class give it has status 401 exactly if it has a `WWW-Authenticate` challenge.
pub config_for-challenges :
    (e : ApplicationError)
    → ((config_for e).status_code == 401) ≡ is_some (config_for e).authenticate
unfolding config_for
config_for-challenges application = refl
config_for-challenges email_service_unavailable = refl
config_for-challenges (auth Auth.auth_service) = refl
config_for-challenges (auth Auth.email_already_registered) = refl
config_for-challenges (auth Auth.registration_unavailable) = refl
config_for-challenges (auth Auth.email_not_verified) = refl
config_for-challenges (auth Auth.invalid_email_verification_token) = refl
config_for-challenges (auth Auth.email_verification_unavailable) = refl
config_for-challenges (auth Auth.invalid_credentials) = refl
config_for-challenges (auth Auth.invalid_basic_credentials) = refl
config_for-challenges (auth Auth.basic_authentication_unavailable) = refl
config_for-challenges (auth Auth.inactive_user) = refl
config_for-challenges (auth Auth.invalid_access_token) = refl
config_for-challenges (auth Auth.invalid_refresh_token) = refl
config_for-challenges (auth Auth.invalid_csrf_token) = refl
config_for-challenges (auth Auth.request_origin_not_allowed) = refl
config_for-challenges (auth Auth.refresh_token_reuse_detected) = refl
config_for-challenges (auth Auth.login_session_unavailable) = refl
config_for-challenges (auth Auth.token_authentication_unavailable) = refl
config_for-challenges (auth Auth.token_refresh_unavailable) = refl
config_for-challenges (auth Auth.logout_unavailable) = refl
config_for-challenges (oauth Oauth.oauth_service) = refl
config_for-challenges (oauth Oauth.oauth_protocol) = refl
config_for-challenges (oauth Oauth.invalid_authorization_request) = refl
config_for-challenges (oauth Oauth.unsupported_response_type) = refl
config_for-challenges (oauth Oauth.invalid_oauth_client) = refl
config_for-challenges (oauth Oauth.invalid_redirect_uri) = refl
config_for-challenges (oauth Oauth.unsupported_code_challenge_method) = refl
config_for-challenges (oauth Oauth.invalid_code_challenge) = refl
config_for-challenges (oauth Oauth.invalid_scope) = refl
config_for-challenges (oauth Oauth.unsupported_grant_type) = refl
config_for-challenges (oauth Oauth.invalid_authorization_grant) = refl
config_for-challenges (oauth Oauth.authorization_code_issuance_unavailable) = refl
config_for-challenges (oauth Oauth.authorization_code_exchange_unavailable) = refl
config_for-challenges (todo Todo.todo_service) = refl
config_for-challenges (todo Todo.todo_not_found) = refl
config_for-challenges (todo Todo.todo_state_conflict) = refl
config_for-challenges (todo Todo.todo_service_unavailable) = refl
config_for-challenges (user User.user_service) = refl
config_for-challenges (user User.profile_update_unavailable) = refl
config_for-challenges (user User.account_deactivation_unavailable) = refl
config_for-challenges (api_key ApiKey.api_key_service) = refl
config_for-challenges (api_key ApiKey.api_key_required) = refl
config_for-challenges (api_key ApiKey.invalid_api_key) = refl
config_for-challenges (api_key ApiKey.api_key_creation_unavailable) = refl
config_for-challenges (api_key ApiKey.api_key_list_unavailable) = refl
config_for-challenges (api_key ApiKey.api_key_not_found) = refl
config_for-challenges (api_key ApiKey.api_key_revocation_unavailable) = refl
