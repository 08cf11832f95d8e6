-- ===== src/Cookies/Tests.antt =====
-- A login and a logout of a browser, at a concrete jar.
use todo_api.Base.{◌≡◌, refl, filter, false, none, [], ◌∷◌}
use todo_api.Text.{strip, is_space}
use todo_api.Results.{ok}
use todo_api.Tokens.{TokenResponse, validate_base, validate_session_id}
use todo_api.Tokens.Decode.{decode_refresh_token, decode, base_payload, refresh_payload}
use todo_api.Cookies.{
  Attributes, Deletes, SetCookie, session_cookies, set_browser_session_cookies,
  clear_browser_session_cookies, remaining_seconds,
}
use todo_api.Cookies.Jar.{receive, is_foreign, clear-set_browser_session_cookies}
use todo_api.Config.{lax}
use todo_api.Samples.{settings, plain_platform}

abbrev pair : TokenResponse
pair = record { access_token = "a"; refresh_token = "r"; expires_in = 60 }

sets :
    set_browser_session_cookies plain_platform settings pair "c1" 2000000
    ≡ ok (session_cookies settings pair "c1" 100000000 98)
unfolding set_browser_session_cookies remaining_seconds decode_refresh_token decode base_payload
    refresh_payload validate_base validate_session_id strip is_space
sets = refl

abbrev deletes : Attributes → SetCookie
deletes a = record { attributes = a; value = "gone"; max_age = 0; expires = none }

deletes-Deletes : Deletes deletes
deletes-Deletes = record { keeps = λ a. refl; ends = λ a. refl }

-- A cookie of another site's part.
abbrev theme : SetCookie
theme = record {
  attributes = record {
    key = "theme";
    path = "/";
    secure = false;
    httponly = false;
    samesite = lax;
  };
  value = "dark";
  max_age = 500;
  expires = none;
}

clear-set_browser_session_cookies_example :
    receive
      (clear_browser_session_cookies deletes settings)
      (receive (session_cookies settings pair "c1" 100000000 98) (theme ∷ []))
    ≡ filter is_foreign (theme ∷ [])
clear-set_browser_session_cookies_example =
    clear-set_browser_session_cookies deletes plain_platform settings pair "c1" 2000000
      (session_cookies settings pair "c1" 100000000 98) (theme ∷ []) deletes-Deletes sets
