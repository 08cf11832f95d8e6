-- ===== src/Routes/Auth/Forgery.antt =====
-- What the routes of sessions do to the tables, and who may make them do it.
use todo_api.Base.{
  ℕ, String, ◌≡◌, refl, arith, true, false, ◌⊎◌, Option, none, some, is_some, List, [], ◌∷◌,
  Bool-cases, inl, inr,
}
use todo_api.Exceptions.{SqlError, Raised}
use todo_api.Results.{Result, Result-cases, is_ok, err}
use todo_api.Database.{Tables, run, ok}
use todo_api.Config.{Settings}
use todo_api.Platform.{Platform}
use todo_api.Text.{is_empty}
use todo_api.Tokens.{given}
use todo_api.Tokens.Create.{Nonces}
use todo_api.Cookies.{Attributes, SetCookie}
use todo_api.Dispatch.{Broker, verification_email, publish, enqueue_registration_verification_email}
use todo_api.Dependencies.Browser.{
  Request, require_browser_csrf_token, uses_browser_session, refresh_cookie_name, csrf_cookie_name,
}
use todo_api.Dependencies.Browser.Guards.{
  IsDoubleSubmitted, require_browser_csrf_token-IsDoubleSubmitted,
}
use todo_api.Services.Accounts.{UserCreate, PendingEmailVerification, register_pending_verification}
use todo_api.Routes.Auth.{
  Registration, user_activity, register, refresh_browser_session, logout_browser_session,
}

given-some : (o : Option String) → is_empty (given o) ≡ false → is_some o ≡ true
given-some none h = absurd (ground arith)
given-some (some s) h = refl

uses-refresh_cookie :
    (request : Request)
    → is_empty (given (request.cookie refresh_cookie_name)) ≡ false
    → uses_browser_session request ≡ true
uses-refresh_cookie request h = ground (arith, given-some (request.cookie refresh_cookie_name) h)

submitted :
    (csrf_header : Option String) (request : Request)
    → require_browser_csrf_token csrf_header request ≡ ok tt
    → is_empty (given (request.cookie refresh_cookie_name)) ≡ false
    → IsDoubleSubmitted csrf_header (request.cookie csrf_cookie_name)
submitted csrf_header request passed brings =
    elim (require_browser_csrf_token-IsDoubleSubmitted csrf_header request passed) [
      | inl without ↦ absurd (ground (arith, uses-refresh_cookie request brings))
      | inr twice ↦ twice
    ]

module _ (p : Platform) (delete_cookie : Attributes → SetCookie) (settings : Settings)
    (request : Request) (csrf_header : Option String) (answers : List (Option SqlError))
    (db : Tables) where
  -- The routes that rotate and that end a browser session change the stored tables only for a request
  -- whose header has the token of the CSRF cookie.
  pub browser_session-IsDoubleSubmitted :
      (nonces : Nonces) (csrf_token : String) (now checked_at set_at : ℕ)
      → let refreshed =
          run
            (refresh_browser_session p settings nonces request csrf_header csrf_token now checked_at
              set_at)
            answers
            db in
        let left =
          run
            (logout_browser_session p delete_cookie settings request csrf_header now)
            answers
            db in
        ((refreshed.1 ≡ db) × (left.1 ≡ db))
        ⊎ IsDoubleSubmitted csrf_header (request.cookie csrf_cookie_name)
  unfolding refresh_browser_session logout_browser_session
  browser_session-IsDoubleSubmitted nonces csrf_token now checked_at set_at =
      elim (Result-cases (require_browser_csrf_token csrf_header request)) [
        | inr (e, forged) ↦ inl (ground arith, ground arith)
        | inl (done, passed) ↦
            elim (Bool-cases (is_empty (given (request.cookie refresh_cookie_name)))) [
              | inl nothing ↦ inl (ground arith, ground arith)
              | inr brings ↦ inr (submitted csrf_header request passed brings)
            ]
      ]

-- The answer of a registration: the service's error, or the account that it stored and whether the
-- broker took the mail.
pub data IsAnswered (broker : Broker) (request_id : String)
    (pending : Result PendingEmailVerification) (out : Result Registration) : Type 0 where
  refused : (e : Raised) → pending ≡ err e → out ≡ err e → IsAnswered broker request_id pending out
  stored :
      (x : PendingEmailVerification) (r : Registration)
      → pending ≡ ok x
      → out ≡ ok r
      → r.user ≡ x.user
      → r.verification_email_queued
        ≡ is_ok (
            broker
              (verification_email x.user.email x.token x.user.full_name request_id x.expires_at))
      → IsAnswered broker request_id pending out

-- A registration does not fail because the broker of the mails raises: it stores what the service
-- stores, answers with the service's error or with the stored account, and tells that the mail is
-- queued just when the broker has taken it.
pub register-broker :
    (p : Platform) (settings : Settings) (broker : Broker) (request_id : String) (id : ℕ)
    (payload : UserCreate) (token : String) (now : ℕ) (answers : List (Option SqlError))
    (db : Tables)
    → let pending =
        run (register_pending_verification p settings id payload token now) answers db in
      let out = run (register p settings broker request_id id payload token now) answers db in
      (out.1 ≡ pending.1) × IsAnswered broker request_id pending.0 out.0
unfolding register enqueue_registration_verification_email publish
register-broker p settings broker request_id id payload token now answers db =
    elim (Result-cases
      (run (register_pending_verification p settings id payload token now) answers db).0) [
        | inr (e, broke) ↦ (ground arith, refused e broke (ground arith))
        | inl (x, done) ↦
            elim (Result-cases (
              broker (
                verification_email x.user.email x.token x.user.full_name request_id
                  x.expires_at))) [
                    | inr (e, lost) ↦
                        let r : Registration = record {
                          user = x.user;
                          verification_email_queued = false;
                          activities = user_activity "user.registered" x.user.id ∷ [];
                        } in
                        (ground arith, stored x r done (ground arith) refl (ground arith))
                    | inl (task_id, taken) ↦
                        let r : Registration = record {
                          user = x.user;
                          verification_email_queued = true;
                          activities = user_activity "user.registered" x.user.id ∷ [];
                        } in
                        (ground arith, stored x r done (ground arith) refl (ground arith))
                  ]
      ]
