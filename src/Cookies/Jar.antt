-- ===== src/Cookies/Jar.antt =====
-- The cookies of a login and of a logout, in the jar of a browser.
use todo_api.Base.{
  ℕ, String, ◌≡◌, ◌∙◌, ap, subst, max, nat_eq, Bool-cases, ◌-◌, ◌/◌, inl, inr, refl, arith, Bool,
  true, false, not, ◌&&◌, ◌==◌, string_eq, some, List, [], ◌∷◌, map, filter, if◌then◌else◌,
}
use todo_api.Results.{ok, Result-cases}
use todo_api.Config.{Settings}
use todo_api.Platform.{Platform}
use todo_api.Tokens.{TokenResponse}
use todo_api.Tokens.Decode.{decode_refresh_token}
use todo_api.Dependencies.Browser.{access_cookie_name, refresh_cookie_name, csrf_cookie_name}
use todo_api.Cookies.{
  Attributes, attributes_of, Deletes, SetCookie, session_cookies, api_cookie_path,
  browser_auth_cookie_path, csrf_cookie_path, set_browser_session_cookies,
  clear_browser_session_cookies, remaining_seconds,
}

-- The cookies that a browser keeps, by name and path: each `Set-Cookie` replaces the one it has, and
-- one that has expired removes it.
abbrev is_at : Attributes → SetCookie → Bool
is_at a k = a.key == k.attributes.key && a.path == k.attributes.path

abbrev pub receive : List SetCookie → List SetCookie → List SetCookie
receive [] jar = jar
receive (c ∷ cs) jar = receive cs (
    if c.max_age == 0
    then filter (λ k. not (is_at c.attributes k)) jar
    else c ∷ filter (λ k. not (is_at c.attributes k)) jar)

module _ {A : Type 0} (p q r : A → Bool) where
  filter_twice :
      (xs : List A)
      → filter r (filter q (filter p (filter r (filter q (filter p xs)))))
        ≡ filter (λ x. p x && q x && r x) xs
  filter_twice [] = refl
  filter_twice (x ∷ xs) = elim (Bool-cases (p x)) [
    | inr no_p ↦ simp no_p (filter_twice xs)
    | inl yes_p ↦ elim (Bool-cases (q x)) [
      | inr no_q ↦ simp (yes_p, no_q) (filter_twice xs)
      | inl yes_q ↦ elim (Bool-cases (r x)) [
        | inr no_r ↦ simp (yes_p, yes_q, no_r) (filter_twice xs)
        | inl yes_r ↦ simp (yes_p, yes_q, yes_r) (ap (λ l. x ∷ l) (filter_twice xs))
      ]
    ]
  ]

-- A cookie that is no cookie of a browser session.
abbrev pub is_other : String → String → SetCookie → Bool
is_other key path k = not (key == k.attributes.key && path == k.attributes.path)

abbrev pub is_foreign : SetCookie → Bool
is_foreign k =
    is_other access_cookie_name api_cookie_path k
    && is_other refresh_cookie_name browser_auth_cookie_path k
    && is_other csrf_cookie_name csrf_cookie_path k

-- A cookie that is deleted.
abbrev expired : Attributes → SetCookie
expired a = record { attributes = a; value = ""; max_age = 0; expires = some 0 }

clear-session_cookies :
    (settings : Settings) (tokens : TokenResponse) (csrf_token : String) (expires age : ℕ)
    (jar : List SetCookie)
    → (age == 0) ≡ false
    → receive
        (clear_browser_session_cookies expired settings)
        (receive (session_cookies settings tokens csrf_token expires age) jar)
      ≡ filter is_foreign jar
unfolding clear_browser_session_cookies
clear-session_cookies settings tokens csrf_token expires age jar lasts =
    elim (Bool-cases (tokens.expires_in == 0)) [
      | inl over ↦
          simp (over, lasts)
            (filter_twice (is_other access_cookie_name api_cookie_path)
              (is_other refresh_cookie_name browser_auth_cookie_path)
              (is_other csrf_cookie_name csrf_cookie_path) jar)
      | inr valid ↦
          simp (valid, lasts)
            (filter_twice (is_other access_cookie_name api_cookie_path)
              (is_other refresh_cookie_name browser_auth_cookie_path)
              (is_other csrf_cookie_name csrf_cookie_path) jar)
    ]

module _ (delete_cookie : Attributes → SetCookie) (d : Deletes delete_cookie) where
  receive-deleted :
      (a : Attributes) (cs jar : List SetCookie)
      → receive (delete_cookie a ∷ cs) jar ≡ receive (expired a ∷ cs) jar
  receive-deleted a cs jar =
      ap
        (λ (x : Attributes × ℕ). receive cs (
          if x.1 == 0
          then filter (λ k. not (is_at x.0 k)) jar
          else delete_cookie a ∷ filter (λ k. not (is_at x.0 k)) jar))
        (let q : ◌≡◌ {A = Attributes × ℕ} ((delete_cookie a).attributes, (delete_cookie a).max_age)
              (a, 0) =
            ground (arith, d.keeps a, d.ends a) in
          q)

  receive-map :
      (places : List Attributes) (jar : List SetCookie)
      → receive (map delete_cookie places) jar ≡ receive (map expired places) jar
  receive-map [] jar = refl
  receive-map (a ∷ places) jar =
      receive-deleted a (map delete_cookie places) jar
      ∙ receive-map places (filter (λ k. not (is_at a k)) jar)

  receive-clear :
      (settings : Settings) (jar : List SetCookie)
      → receive (clear_browser_session_cookies delete_cookie settings) jar
        ≡ receive (clear_browser_session_cookies expired settings) jar
  unfolding clear_browser_session_cookies
  receive-clear settings jar =
      receive-map
        (attributes_of settings access_cookie_name api_cookie_path true
          ∷ attributes_of settings refresh_cookie_name browser_auth_cookie_path true
          ∷ attributes_of settings csrf_cookie_name csrf_cookie_path false
          ∷ [])
        jar

-- Whatever a browser keeps, where deleting a cookie makes it expire, a login and then a logout leave exactly the cookies that do not belong to
-- the session: the cookies that are cleared are the three that were set, at the same names and paths,
-- and no other cookie is touched.
pub clear-set_browser_session_cookies :
    (delete_cookie : Attributes → SetCookie) (p : Platform) (settings : Settings)
    (tokens : TokenResponse) (csrf_token : String) (now : ℕ) (cs jar : List SetCookie)
    → Deletes delete_cookie
    → set_browser_session_cookies p settings tokens csrf_token now ≡ ok cs
    → receive (clear_browser_session_cookies delete_cookie settings) (receive cs jar)
      ≡ filter is_foreign jar
unfolding set_browser_session_cookies clear_browser_session_cookies remaining_seconds
clear-set_browser_session_cookies delete_cookie p settings tokens csrf_token now cs jar d done =
    receive-clear delete_cookie d settings (receive cs jar)
    ∙ elim (Result-cases (decode_refresh_token p settings tokens.refresh_token now)) [
      | inr (e, bad) ↦ absurd (ground arith)
      | inl (payload, read) ↦
          let age = max 1 ((payload.base.exp - now) / 1000000) in
          let made : session_cookies settings tokens csrf_token payload.base.exp age ≡ cs =
            ground arith in
          subst
            (λ c.
              receive (clear_browser_session_cookies expired settings) (receive c jar)
              ≡ filter is_foreign jar)
            made
            (clear-session_cookies settings tokens csrf_token payload.base.exp age jar
              (ground arith))
    ]
