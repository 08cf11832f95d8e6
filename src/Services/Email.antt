-- ===== src/Services/Email.antt =====
-- services/email.py: sending a mail and trying the connection. FastAPI-Mail is a parameter, which says
-- whether it raised one of the errors that the service catches.
use todo_api.Base.{String, Bool, true, false, not, Option, is_some, if◌then◌else◌}
use todo_api.Exceptions.{app, email_service_unavailable}
use todo_api.Results.{Result, ok, err}

pub data MessageType : Type 0 where
  plain html : MessageType

-- `MessageSchema`, with whether its parts are alternatives.
pub record Message : Type 0 where
  pub recipient : String
  pub subject : String
  pub body : String
  pub subtype : MessageType
  pub alternative_body : Option String
  pub is_alternative : Bool

-- Whether the mail was delivered, and not held back by the configuration.
unfoldable pub send :
    (Message → Bool) → Bool → String → String → String → MessageType → Option String → Result Bool
send mailer suppresses_delivery recipient subject body subtype alternative_body =
    let message : Message = record {
      recipient = recipient;
      subject = subject;
      body = body;
      subtype = subtype;
      alternative_body = alternative_body;
      is_alternative = is_some alternative_body;
    } in
    if mailer message then ok (not suppresses_delivery) else err (app email_service_unavailable)

-- `connects` is whether the handshake over SMTP succeeds.
unfoldable pub check_connection : Bool → Bool → Result Bool
check_connection connects suppresses_delivery =
    if suppresses_delivery
    then ok false
    else if connects
    then ok true
    else err (app email_service_unavailable)
