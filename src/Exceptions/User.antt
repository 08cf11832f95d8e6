-- ===== src/Exceptions/User.antt =====
-- exceptions/user.py: the classes, the class that each extends, and the fields that clients see.
use todo_api.Base.{String, Option, none, some}

pub data UserError : Type 0 where
  user_service : UserError
  profile_update_unavailable : UserError
  account_deactivation_unavailable : UserError

-- The base class, where it is one of this file; the others extend `ApplicationError`.
unfoldable pub base : UserError → Option UserError
base user_service = none
base profile_update_unavailable = some user_service
base account_deactivation_unavailable = some user_service

unfoldable pub error_code : UserError → String
error_code user_service = "user_service_error"
error_code profile_update_unavailable = "profile_update_unavailable"
error_code account_deactivation_unavailable = "account_deactivation_unavailable"

unfoldable pub public_message : UserError → String
public_message user_service = "User operation could not be completed."
public_message profile_update_unavailable = "Profile update could not be completed."
public_message account_deactivation_unavailable = "Account deactivation could not be completed."
