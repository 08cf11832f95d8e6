-- ===== src/Routes/LoginPage.antt =====
-- api/v1/routes/oauth.py: the page on which a user signs in to authorize the client.
pub mod Markup
use todo_api.Base.{String, Option, none, some, List, [], ◌∷◌, ◌++◌, if◌then◌else◌}
use todo_api.Text.{is_empty, ◌<>◌}
use todo_api.Text.Html.{escape}
use todo_api.Services.OauthFlow.{AuthorizationRequest}

abbrev pub no_store_headers : List (String × String)
no_store_headers = ("Cache-Control", "no-store") ∷ ("Pragma", "no-cache") ∷ []

abbrev pub html_headers : List (String × String)
html_headers =
    no_store_headers
    ++ (
      "Content-Security-Policy",
      "default-src 'none'; style-src 'unsafe-inline'; form-action 'self'; frame-ancestors 'none'",
    )
      ∷ ("Referrer-Policy", "no-referrer")
      ∷ ("X-Content-Type-Options", "nosniff")
      ∷ ("X-Frame-Options", "DENY")
      ∷ []

abbrev pub hidden : String → String → String
hidden name value =
    "<input type=\"hidden\" name=\"" <> name <> "\" value=\"" <> escape value <> "\">"

abbrev pub hidden_state : Option String → String
hidden_state none = String.[]
hidden_state (some value) = hidden "state" value

unfoldable pub hidden_html : AuthorizationRequest → String
hidden_html request =
    hidden "response_type" "code"
    <> hidden "client_id" request.client_id
    <> hidden "redirect_uri" request.redirect_uri
    <> hidden_state request.state
    <> hidden "code_challenge" request.code_challenge
    <> hidden "code_challenge_method" "S256"
    <> hidden "scope" request.scope

unfoldable pub error_html : String → String
error_html error =
    if is_empty error then String.[] else "<p class=\"error\">" <> escape error <> "</p>"

abbrev pub head : String
head =
    "<!doctype html>\n        <html lang=\"en\">\n        <head>\n            <meta charset=\"utf-8\">\n"
    <> "            <meta name=\"viewport\" content=\"width=device-width, initial-scale=1\">\n"
    <> "            <title>Authorize Todo API</title>\n            <style>\n"
    <> "                body { font-family: system-ui, sans-serif; max-width: 420px; margin: 8vh auto; padding: 24px; }\n"
    <> "                form, label { display: grid; gap: 14px; }\n                label { gap: 6px; }\n"
    <> "                input, button { box-sizing: border-box; width: 100%; padding: 11px; font: inherit; }\n"
    <> "                button { cursor: pointer; }\n                .error { color: #b00020; }\n"
    <> "            </style>\n        </head>\n        <body>\n            <h1>Todo API</h1>\n"
    <> "            <p>Sign in to authorize <strong>"

abbrev pub fields : String
fields =
    "\n                <label>\n                    Email\n"
    <> "                    <input name=\"email\" type=\"email\" autocomplete=\"username\" required>\n"
    <> "                </label>\n                <label>\n                    Password\n"
    <> "                    <input name=\"password\" type=\"password\" autocomplete=\"current-password\" required>\n"
    <> "                </label>\n                <button type=\"submit\">Authorize</button>\n"
    <> "            </form>\n        </body>\n        </html>\n    "

abbrev pub open_form : String
open_form =
    "\n            <form method=\"post\" action=\"/api/v1/auth/authorize\" autocomplete=\"on\">\n                "

-- The content that `_login_page` writes.
unfoldable pub login_page : AuthorizationRequest → String → String
login_page request error =
    head
    <> escape request.client_id
    <> "</strong>.</p>\n            "
    <> error_html error
    <> open_form
    <> hidden_html request
    <> fields
