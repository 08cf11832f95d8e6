-- ===== src/Emails/Markup.antt =====
-- The markup of the mails.
use todo_api.Base.{String, ◌≡◌, refl, Option}
use todo_api.Text.Markup.{markup, join, escaped}
use todo_api.Config.{Settings}
use todo_api.Platform.{Platform}
use todo_api.Emails.{
  verification_html, welcome_html, create_verification_email, create_welcome_email, greeting_name,
  verification_url, opening,
}

verification_html-markup :
    (name name' app_name url url' ttl_label : String)
    → markup (verification_html name app_name url ttl_label)
      ≡ markup (verification_html name' app_name url' ttl_label)
unfolding verification_html
verification_html-markup name name' app_name url url' ttl_label = join opening opening _ _ refl (
    join _ _ _ _ (escaped name name') (
      join _ _ _ _ refl
        (join _ _ _ _ refl (join _ _ _ _ refl (join _ _ _ _ (escaped url url') (refl))))))

welcome_html-markup :
    (name name' app_name : String)
    → markup (welcome_html name app_name) ≡ markup (welcome_html name' app_name)
unfolding welcome_html
welcome_html-markup name name' app_name =
    join _ _ _ _ refl
      (join _ _ _ _ refl (join _ _ _ _ refl (join _ _ _ _ (escaped name name') refl)))

-- The name and the token that a mail is written for change nothing of its markup: a name cannot bring
-- tags into it.
pub create_email-markup :
    (p : Platform) (settings : Settings) (ttl_label token token' : String)
    (full_name full_name' : Option String)
    → (markup (create_verification_email p settings ttl_label token full_name).html_body
        ≡ markup (create_verification_email p settings ttl_label token' full_name').html_body)
      × (markup (create_welcome_email settings full_name).html_body
          ≡ markup (create_welcome_email settings full_name').html_body)
unfolding create_verification_email create_welcome_email
create_email-markup p settings ttl_label token token' full_name full_name' = (
  verification_html-markup (greeting_name full_name) (greeting_name full_name') settings.app_name
      (verification_url p settings token) (verification_url p settings token') ttl_label,
  welcome_html-markup (greeting_name full_name) (greeting_name full_name') settings.app_name,
)
