-- ===== src/Emails/Tasks.antt =====
-- background/tasks/email.py: what a worker does with a mail from the queue. Celery runs a task again when
-- it raises.
use todo_api.Base.{String, Bool, Option, some}
use todo_api.Results.{Result, ok, ◌>>=◌}
use todo_api.Config.{Settings}
use todo_api.Platform.{Platform}
use todo_api.Services.Email.{Message, html, send}
use todo_api.Emails.{EmailContent, create_verification_email, create_welcome_email}

-- `_send_message`
unfoldable pub send_message : (Message → Bool) → Bool → String → EmailContent → Result Bool
send_message mailer suppresses_delivery recipient message =
    send mailer suppresses_delivery recipient message.subject message.html_body html
      (some message.plain_body)

pub record TaskResult : Type 0 where
  pub delivered : Bool
  pub email_type : String

unfoldable pub send_registration_verification_email :
    Platform
    → Settings
    → (Message → Bool)
    → Bool
    → String
    → String
    → String
    → Option String
    → Result TaskResult
unfolding send_message
send_registration_verification_email p settings mailer suppresses_delivery ttl_label recipient token
      full_name =
    do
      delivered ←
          send_message mailer suppresses_delivery recipient
            (create_verification_email p settings ttl_label token full_name)
      ok (record { delivered = delivered; email_type = "registration_verification" })

unfoldable pub send_registration_welcome_email :
    Settings → (Message → Bool) → Bool → String → Option String → Result TaskResult
unfolding send_message
send_registration_welcome_email settings mailer suppresses_delivery recipient full_name = do
  delivered ←
      send_message mailer suppresses_delivery recipient (create_welcome_email settings full_name)
  ok (record { delivered = delivered; email_type = "registration_welcome" })
