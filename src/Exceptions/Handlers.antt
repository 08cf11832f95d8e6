-- ===== src/Exceptions/Handlers.antt =====
-- api/exception_handlers.py: which HTTP response answers which error.
use todo_api.Base.{
  ℕ, zero, suc, String, Bool, true, false, ◌&&◌, Option, none, some, or_else, List, [], ◌∷◌,
  if◌then◌else◌,
}
use todo_api.Exceptions.Auth
use todo_api.Exceptions.Oauth
use todo_api.Exceptions.Todo
use todo_api.Exceptions.User
use todo_api.Exceptions.ApiKey
use todo_api.Exceptions.{
  ApplicationError, application, auth, oauth, todo, user, api_key, email_service_unavailable,
}

pub record ErrorConfig : Type 0 where
  pub status_code : ℕ
  pub authenticate : Option String

abbrev plain : ℕ → Option ErrorConfig
plain n = some (record { status_code = n; authenticate = none })

abbrev challenge : ℕ → String → Option ErrorConfig
challenge n scheme = some (record { status_code = n; authenticate = some scheme })

-- `ERROR_CONFIG.get`, entry by entry.
unfoldable pub error_config : ApplicationError → Option ErrorConfig
error_config (auth Auth.email_already_registered) = plain 409
error_config (auth Auth.email_not_verified) = plain 403
error_config (auth Auth.invalid_email_verification_token) = plain 400
error_config (auth Auth.email_verification_unavailable) = plain 503
error_config (auth Auth.invalid_credentials) = challenge 401 "Bearer"
error_config (auth Auth.invalid_basic_credentials) = challenge 401 "Basic"
error_config (auth Auth.invalid_access_token) = challenge 401 "Bearer"
error_config (auth Auth.invalid_refresh_token) = challenge 401 "Bearer"
error_config (auth Auth.invalid_csrf_token) = plain 403
error_config (auth Auth.request_origin_not_allowed) = plain 403
error_config (api_key ApiKey.api_key_required) = challenge 401 "APIKey"
error_config (api_key ApiKey.invalid_api_key) = challenge 401 "APIKey"
error_config (auth Auth.inactive_user) = plain 403
error_config (api_key ApiKey.api_key_not_found) = plain 404
error_config (auth Auth.auth_service) = plain 503
error_config (api_key ApiKey.api_key_service) = plain 503
error_config (user User.user_service) = plain 503
error_config email_service_unavailable = plain 503
error_config (todo Todo.todo_not_found) = plain 404
error_config (todo Todo.todo_service) = plain 409
error_config (todo Todo.todo_state_conflict) = plain 503
error_config _ = none

abbrev base_or_application :
    {E : Type 0} → (E → ApplicationError) → Option E → Option ApplicationError
base_or_application wrap none = some application
base_or_application wrap (some e) = some (wrap e)

-- The class that a class extends; `Exception`, above `ApplicationError`, has no configuration.
unfoldable pub base_class : ApplicationError → Option ApplicationError
unfolding Auth.base Oauth.base Todo.base User.base ApiKey.base
base_class application = none
base_class (auth e) = base_or_application auth (Auth.base e)
base_class (oauth e) = base_or_application oauth (Oauth.base e)
base_class (todo e) = base_or_application todo (Todo.base e)
base_class (user e) = base_or_application user (User.base e)
base_class (api_key e) = base_or_application api_key (ApiKey.base e)
base_class email_service_unavailable = some application

-- `__mro__`, from the class upwards. The deepest class has three above it.
unfoldable pub mro_from : ℕ → Option ApplicationError → List ApplicationError
unfolding base_class
mro_from zero e = []
mro_from (suc n) none = []
mro_from (suc n) (some e) = e ∷ mro_from n (base_class e)

unfoldable pub mro : ApplicationError → List ApplicationError
unfolding mro_from
mro e = mro_from 4 (some e)

unfoldable first_config : List ApplicationError → ErrorConfig
unfolding error_config
first_config [] = record { status_code = 500; authenticate = none }
first_config (e ∷ es) = or_else (error_config e) (first_config es)

-- `_config_for`
unfoldable pub config_for : ApplicationError → ErrorConfig
unfolding first_config mro
config_for e = first_config (mro e)

pub record JsonResponse : Type 0 where
  pub status_code : ℕ
  pub content : List (String × String)
  pub headers : List (String × String)

abbrev code_of : ApplicationError → String
unfolding Auth.error_code Oauth.error_code Todo.error_code User.error_code ApiKey.error_code
code_of application = "application_error"
code_of (auth e) = Auth.error_code e
code_of (oauth e) = Oauth.error_code e
code_of (todo e) = Todo.error_code e
code_of (user e) = User.error_code e
code_of (api_key e) = ApiKey.error_code e
code_of email_service_unavailable = "email_service_unavailable"

message_of : ApplicationError → String
unfolding Auth.public_message Oauth.public_message Todo.public_message User.public_message
    ApiKey.public_message
message_of application = "An application error occurred."
message_of (auth e) = Auth.public_message e
message_of (oauth e) = Oauth.public_message e
message_of (todo e) = Todo.public_message e
message_of (user e) = User.public_message e
message_of (api_key e) = ApiKey.public_message e
message_of email_service_unavailable = "The email service is temporarily unavailable."

-- `application_error_handler`. The log line and the registration metric are left out.
pub application_error_handler : ApplicationError → JsonResponse
unfolding config_for message_of code_of
application_error_handler e =
    let config = config_for e in
    record {
      status_code = config.status_code;
      content = ("detail", message_of e) ∷ ("code", code_of e) ∷ [];
      headers = elim config.authenticate [
        | none ↦ []
        | some scheme ↦ ("WWW-Authenticate", scheme) ∷ []
      ];
    }

-- `isinstance(exception, OAuthProtocolError)`
unfoldable pub is_protocol_error : Oauth.OauthError → Bool
is_protocol_error Oauth.oauth_service = false
is_protocol_error Oauth.authorization_code_issuance_unavailable = false
is_protocol_error Oauth.authorization_code_exchange_unavailable = false
is_protocol_error _ = true

is_client_error : Oauth.OauthError → Bool
is_client_error Oauth.invalid_oauth_client = true
is_client_error _ = false

-- `oauth_error_handler`, over the two tests that it makes of the request: whether the path ends in
-- `/token`, and whether there is a non-empty `Authorization` header.
pub oauth_error_handler : Bool → Bool → Oauth.OauthError → JsonResponse
unfolding is_protocol_error is_client_error Oauth.oauth_error Oauth.public_message
oauth_error_handler at_token_path attempted_client_authentication e =
    let refused = is_client_error e && at_token_path && attempted_client_authentication in
    record {
      status_code = if refused then 401 else if is_protocol_error e then 400 else 503;
      content = ("error", Oauth.oauth_error e) ∷ ("error_description", Oauth.public_message e) ∷ [];
      headers =
          ("Cache-Control", "no-store")
          ∷ ("Pragma", "no-cache")
          ∷ (if refused then ("WWW-Authenticate", "Basic realm=\"oauth-token\"") ∷ [] else []);
    }
