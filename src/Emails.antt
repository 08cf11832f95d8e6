-- ===== src/Emails.antt =====
-- utils/email.py: the texts of the mails. `urlencode` is the platform's; the label of the link's life is
-- what Python's format `g` makes of its hours, an argument here.
pub mod Markup
pub mod Tasks
use todo_api.Base.{String, Option, [], ◌∷◌, if◌then◌else◌}
use todo_api.Text.{is_empty, ◌<>◌}
use todo_api.Text.Html.{escape}
use todo_api.Config.{Settings}
use todo_api.Platform.{Platform}
use todo_api.Tokens.{given}

pub record EmailContent : Type 0 where
  pub subject : String
  pub html_body : String
  pub plain_body : String

-- `full_name or "there"`
abbrev pub greeting_name : Option String → String
greeting_name full_name = if is_empty (given full_name) then "there" else given full_name

abbrev pub verification_url : Platform → Settings → String → String
verification_url p settings token =
    settings.email_verification_url <> "?" <> p.urlencode (("token", token) ∷ [])

-- Between `escape(verification_url)` and the label, and behind it.
abbrev pub button : String
button =
    "\"\n           style=\"display: inline-block; padding: 10px 16px; color: white; background: #2563eb; text-decoration: none; border-radius: 6px\">\n"
    <> "          Verify email\n        </a>\n      </p>\n      <p>This single-use link expires in "

abbrev pub opening : String
opening =
    "<div style=\"font-family: sans-serif; line-height: 1.5; color: #1f2937\">\n"
    <> "      <h2>Verify your email</h2>\n      <p>Hello "

abbrev pub ending : String
ending =
    ".</p>\n      <p>If you did not create this account, you can ignore this email.</p>\n    </div>"

-- The text that `strip` leaves of the template.
unfoldable pub verification_html : String → String → String → String → String
verification_html name app_name url ttl_label =
    opening
    <> escape name
    <> ",</p>\n      <p>Confirm your email address to finish setting up your "
    <> escape app_name
    <> " account.</p>\n      <p>\n        <a href=\""
    <> escape url
    <> button
    <> ttl_label
    <> ending

unfoldable pub create_verification_email :
    Platform → Settings → String → String → Option String → EmailContent
unfolding verification_html
create_verification_email p settings ttl_label token full_name = record {
  subject = "Verify your " <> settings.app_name <> " email";
  html_body =
      verification_html (greeting_name full_name) settings.app_name
        (verification_url p settings token) ttl_label;
  plain_body =
      "Hello "
      <> greeting_name full_name
      <> ",\n\nVerify your email address for "
      <> settings.app_name
      <> " by opening this link:\n"
      <> verification_url p settings token
      <> "\n\nThis single-use link expires in "
      <> ttl_label
      <> ". If you did not create this account, you can ignore this email.";
}

unfoldable pub welcome_html : String → String → String
welcome_html name app_name =
    "<div style=\"font-family: sans-serif; line-height: 1.5; color: #1f2937\"><h2>Welcome to "
    <> escape app_name
    <> "</h2><p>Hello "
    <> escape name
    <> ",</p><p>Your "
    <> escape app_name
    <> " account is ready. You can now sign in and start organizing your todos.</p><p>Thanks for joining us.</p></div>"

unfoldable pub create_welcome_email : Settings → Option String → EmailContent
unfolding welcome_html
create_welcome_email settings full_name = record {
  subject = "Welcome to " <> settings.app_name;
  html_body = welcome_html (greeting_name full_name) settings.app_name;
  plain_body =
      "Hello "
      <> greeting_name full_name
      <> ",\n\nYour "
      <> settings.app_name
      <> " account is ready. You can now sign in and start organizing your todos.\n\nThanks for joining us.";
}
