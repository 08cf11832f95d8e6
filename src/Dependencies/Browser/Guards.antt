-- ===== src/Dependencies/Browser/Guards.antt =====
-- What the checks let through.
use todo_api.Base.{
  String, ◌≡◌, refl, sym, ap, eq_iff, arith, true, false, Option, none, some, ◌∷◌, Option-cases,
  Bool-cases, inl, is_in, inr, ◌⊎◌, ◌&&◌, not, ◌==◌, string_eq,
}
use todo_api.Results.{ok, Result-cases}
use todo_api.Text.{is_empty, strip}
use todo_api.Text.Split.{before, behind, cut}
use todo_api.Config.{Settings}
use todo_api.Platform.{Platform}
use todo_api.Tokens.{verify_csrf_token, given}
use todo_api.Dependencies.Browser.Origins.{
  HasOrigin, NamesNoOrigin, extract_origin-HasOrigin, extract_origin-NamesNoOrigin,
}
use todo_api.Dependencies.Browser.{
  Request, safe_methods, extract_origin, uses_browser_session, request_origin,
  validate_request_origin, has_explicit_bearer_token, require_csrf_token, access_cookie_name,
  csrf_cookie_name, require_browser_csrf_token,
}

-- Where the origin of a request that is let through comes from.
pub data IsTrusted (p : Platform) (settings : Settings) (r : Request) : Type 0 where
  safe : is_in (p.upper r.method) safe_methods ≡ true → IsTrusted p settings r
  no_browser :
      NamesNoOrigin p (r.header "origin") → uses_browser_session r ≡ false → IsTrusted p settings r
  by_origin_header :
      (origin : String)
      → HasOrigin p (r.header "origin") origin
      → is_in origin (request_origin r ∷ settings.cors_allowed_origins) ≡ true
      → IsTrusted p settings r
  by_referer :
      (origin : String)
      → NamesNoOrigin p (r.header "origin")
      → HasOrigin p (r.header "referer") origin
      → is_in origin (request_origin r ∷ settings.cors_allowed_origins) ≡ true
      → IsTrusted p settings r

-- A request passes the check of its origin only if its method is safe, or it names no origin and brings
-- no session cookie, or its `Origin`, or without one its `Referer`, is the API's own or a configured
-- origin.
pub validate_request_origin-IsTrusted :
    (p : Platform) (settings : Settings) (r : Request)
    → validate_request_origin p settings r ≡ ok tt
    → IsTrusted p settings r
unfolding validate_request_origin
validate_request_origin-IsTrusted p settings r h =
    elim (Bool-cases (is_in (p.upper r.method) safe_methods)) [
      | inl harmless ↦ safe harmless
      | inr unsafe ↦ elim (Result-cases (extract_origin p (r.header "origin"))) [
        | inr (e, bad) ↦ absurd (ground arith)
        | inl (o, read) ↦ elim (Option-cases o) [
          | inr (origin, is) ↦
              by_origin_header origin
                (extract_origin-HasOrigin p (r.header "origin") origin (ground arith))
                (ground arith)
          | inl nothing ↦ elim (Bool-cases (uses_browser_session r)) [
            | inr plain ↦
                no_browser (extract_origin-NamesNoOrigin p (r.header "origin") (ground arith)) plain
            | inl browser ↦ elim (Result-cases (extract_origin p (r.header "referer"))) [
              | inr (e, bad) ↦ absurd (ground arith)
              | inl (o', read') ↦ elim (Option-cases o') [
                | inl missing ↦ absurd (ground arith)
                | inr (origin, is) ↦
                    by_referer origin
                      (extract_origin-NamesNoOrigin p (r.header "origin") (ground arith))
                      (extract_origin-HasOrigin p (r.header "referer") origin (ground arith))
                      (ground arith)
              ]
            ]
          ]
        ]
      ]
    ]

-- Header and cookie carry the same token, which is not empty.
pub record IsDoubleSubmitted (csrf_header cookie : Option String) : Type 0 where
  pub token : String
  pub sent : csrf_header ≡ some token
  pub kept : cookie ≡ some token
  pub nonempty : is_empty token ≡ false

verify_csrf_token-IsDoubleSubmitted :
    (csrf_header cookie : Option String)
    → verify_csrf_token csrf_header cookie ≡ true
    → IsDoubleSubmitted csrf_header cookie
unfolding verify_csrf_token
verify_csrf_token-IsDoubleSubmitted none cookie h = absurd (ground arith)
verify_csrf_token-IsDoubleSubmitted (some a) none h = elim (Bool-cases (is_empty a)) [
  | inl nothing ↦ absurd (ground arith)
  | inr something ↦ absurd (ground arith)
]
verify_csrf_token-IsDoubleSubmitted (some a) (some b) h = elim (Bool-cases (is_empty a)) [
  | inl nothing ↦ absurd (ground arith)
  | inr something ↦ elim (Bool-cases (is_empty b)) [
    | inl nothing ↦ absurd (ground arith)
    | inr here ↦ elim (Bool-cases (a == b)) [
      | inr other ↦ absurd (ground arith)
      | inl same ↦
          let e : a ≡ b = (eq_iff a b).0 same in
          record { token = a; sent = refl; kept = ap some (sym e); nonempty = something }
    ]
  ]
]

-- The scheme before the first space, of code 32, is that of Bearer tokens, in any case of letters, and
-- something stands behind it.
pub record IsBearer (p : Platform) (header : Option String) : Type 0 where
  pub value : String
  pub sent : header ≡ some value
  pub scheme : p.casefold (before 32 value) ≡ "bearer"
  pub credentials : is_empty (strip (behind 32 value)) ≡ false

header-IsBearer :
    (p : Platform) (header : Option String)
    → (p.casefold (before 32 (given header)) == "bearer"
        && not (is_empty (strip (behind 32 (given header)))))
      ≡ true
    → IsBearer p header
unfolding cut strip
header-IsBearer p none h = absurd (ground arith)
header-IsBearer p (some value) h = record {
  value = value;
  sent = refl;
  scheme = (eq_iff (p.casefold (before 32 value)) "bearer").0 (ground arith);
  credentials = ground arith;
}

has_explicit_bearer_token-IsBearer :
    (p : Platform) (r : Request)
    → has_explicit_bearer_token p r ≡ true
    → IsBearer p (r.header "authorization")
unfolding has_explicit_bearer_token
has_explicit_bearer_token-IsBearer p r h = header-IsBearer p (r.header "authorization") h

-- A request passes the check for forged requests only if it brings a Bearer token of its own, or no
-- access cookie, or the token of the CSRF cookie also in the header: the same one, and not empty.
pub require_csrf_token-IsDoubleSubmitted :
    (p : Platform) (csrf_header : Option String) (r : Request)
    → require_csrf_token p csrf_header r ≡ ok tt
    → IsBearer p (r.header "authorization")
      ⊎ (r.cookie access_cookie_name ≡ none)
      ⊎ IsDoubleSubmitted csrf_header (r.cookie csrf_cookie_name)
unfolding require_csrf_token
require_csrf_token-IsDoubleSubmitted p csrf_header r h =
    elim (Bool-cases (has_explicit_bearer_token p r)) [
      | inl explicit ↦ inl (has_explicit_bearer_token-IsBearer p r explicit)
      | inr implicit ↦ elim (Option-cases (r.cookie access_cookie_name)) [
        | inl without ↦ inr (inl without)
        | inr (cookie, brings) ↦
            elim (Bool-cases (verify_csrf_token csrf_header (r.cookie csrf_cookie_name))) [
              | inr forged ↦ absurd (ground arith)
              | inl genuine ↦ inr (
                  inr (
                    verify_csrf_token-IsDoubleSubmitted csrf_header (r.cookie csrf_cookie_name)
                      genuine))
            ]
      ]
    ]

-- The check of the browser's own routes, in the same way: a request that has a session cookie passes
-- only with the CSRF cookie's token in the header.
pub require_browser_csrf_token-IsDoubleSubmitted :
    (csrf_header : Option String) (r : Request)
    → require_browser_csrf_token csrf_header r ≡ ok tt
    → (uses_browser_session r ≡ false) ⊎ IsDoubleSubmitted csrf_header (r.cookie csrf_cookie_name)
unfolding require_browser_csrf_token
require_browser_csrf_token-IsDoubleSubmitted csrf_header r h =
    elim (Bool-cases (uses_browser_session r)) [
      | inr without ↦ inl without
      | inl browser ↦
          elim (Bool-cases (verify_csrf_token csrf_header (r.cookie csrf_cookie_name))) [
            | inl genuine ↦ inr (
                verify_csrf_token-IsDoubleSubmitted csrf_header (r.cookie csrf_cookie_name) genuine)
            | inr forged ↦ absurd (ground arith)
          ]
    ]
