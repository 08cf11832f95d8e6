-- ===== src/Routes/Mail.antt =====
-- api/v1/routes/email.py: the endpoints that try the SMTP server.
use todo_api.Base.{String, Bool, none}
use todo_api.Database.{Action, ◌>>=◌, lift, pure}
use todo_api.Config.{Settings}
use todo_api.Platform.{Platform}
use todo_api.Services.Email.{Message, MessageType, send, check_connection}
use todo_api.Routes.Guarded.{Call, current_user, writing_user}

-- `EmailDeliveryResponseSchema`; `sent` or `suppressed`.
pub record Delivery : Type 0 where
  pub is_sent : Bool
  pub recipient : String

module _ (p : Platform) (settings : Settings) (call : Call) (suppresses_delivery : Bool) where
  -- `ok` or `suppressed`; the other fields of the response are those of the configuration.
  pub check_smtp_connection : Bool → Action Bool
  check_smtp_connection connects = do
    user ← current_user p settings call
    lift (check_connection connects suppresses_delivery)

  pub send_test_email : (Message → Bool) → String → String → MessageType → Action Delivery
  send_test_email mailer subject body subtype = do
    user ← writing_user p settings call
    delivered ← lift (send mailer suppresses_delivery user.email subject body subtype none)
    pure (record { is_sent = delivered; recipient = user.email })
