-- ===== src/Routes/LoginPage/Markup.antt =====
-- The markup of the sign-in page.
use todo_api.Base.{String, ◌≡◌, refl, arith, Option, none, some, is_some}
use todo_api.Text.Markup.{markup, join, escaped}
use todo_api.Services.OauthFlow.{AuthorizationRequest}
use todo_api.Routes.LoginPage.{
  login_page, hidden, hidden_state, hidden_html, error_html, head, open_form,
}

hidden-markup : (name s t : String) → markup (hidden name s) ≡ markup (hidden name t)
hidden-markup name s t =
    join _ _ _ _ refl (join _ _ _ _ refl (join _ _ _ _ refl (join _ _ _ _ (escaped s t) refl)))

hidden_state-markup :
    (o o' : Option String)
    → is_some o ≡ is_some o'
    → markup (hidden_state o) ≡ markup (hidden_state o')
hidden_state-markup none none same = refl
hidden_state-markup (some s) (some t) same = hidden-markup "state" s t
hidden_state-markup none (some t) same = absurd (ground arith)
hidden_state-markup (some s) none same = absurd (ground arith)

hidden_html-markup :
    (request request' : AuthorizationRequest)
    → is_some request.state ≡ is_some request'.state
    → markup (hidden_html request) ≡ markup (hidden_html request')
unfolding hidden_html
hidden_html-markup request request' same = join _ _ _ _ refl (
    join _ _ _ _ (hidden-markup "client_id" request.client_id request'.client_id) (
      join _ _ _ _ (hidden-markup "redirect_uri" request.redirect_uri request'.redirect_uri) (
        join _ _ _ _ (hidden_state-markup request.state request'.state same) (
          join _ _ _ _
            (hidden-markup "code_challenge" request.code_challenge request'.code_challenge)
            (join _ _ _ _ refl (hidden-markup "scope" request.scope request'.scope))))))

-- The pages for two requests that both bring a state, or both none, have the same markup: what a request
-- says can neither open nor close a tag or the value of an attribute.
pub login_page-markup :
    (request request' : AuthorizationRequest) (error : String)
    → is_some request.state ≡ is_some request'.state
    → markup (login_page request error) ≡ markup (login_page request' error)
unfolding login_page
login_page-markup request request' error same = join head _ _ _ refl (
    join _ _ _ _ (escaped request.client_id request'.client_id) (
      join _ _ _ _ refl (
        join (error_html error) _ _ _ refl (
          join open_form _ _ _ refl
            (join _ _ _ _ (hidden_html-markup request request' same) refl)))))
