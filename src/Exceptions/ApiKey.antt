-- ===== src/Exceptions/ApiKey.antt =====
-- exceptions/api_key.py: the classes, the class that each extends, and the fields that clients see.
use todo_api.Base.{String, Option, none, some}

pub data ApiKeyError : Type 0 where
  api_key_service : ApiKeyError
  api_key_required : ApiKeyError
  invalid_api_key : ApiKeyError
  api_key_creation_unavailable : ApiKeyError
  api_key_list_unavailable : ApiKeyError
  api_key_not_found : ApiKeyError
  api_key_revocation_unavailable : ApiKeyError

-- The base class, where it is one of this file; the others extend `ApplicationError`.
unfoldable pub base : ApiKeyError → Option ApiKeyError
base api_key_service = none
base api_key_required = some api_key_service
base invalid_api_key = some api_key_service
base api_key_creation_unavailable = some api_key_service
base api_key_list_unavailable = some api_key_service
base api_key_not_found = some api_key_service
base api_key_revocation_unavailable = some api_key_service

unfoldable pub error_code : ApiKeyError → String
error_code api_key_service = "api_key_service_error"
error_code api_key_required = "api_key_required"
error_code invalid_api_key = "invalid_api_key"
error_code api_key_creation_unavailable = "api_key_creation_unavailable"
error_code api_key_list_unavailable = "api_key_list_unavailable"
error_code api_key_not_found = "api_key_not_found"
error_code api_key_revocation_unavailable = "api_key_revocation_unavailable"

unfoldable pub public_message : ApiKeyError → String
public_message api_key_service = "API key operation could not be completed."
public_message api_key_required = "API key is required."
public_message invalid_api_key = "API key is invalid or revoked."
public_message api_key_creation_unavailable = "API key creation could not be completed."
public_message api_key_list_unavailable = "API keys could not be retrieved."
public_message api_key_not_found = "API key was not found."
public_message api_key_revocation_unavailable = "API key revocation could not be completed."
