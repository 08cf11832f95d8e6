-- ===== src/Routes/Guarded/Admitted.antt =====
-- What stands before the code of a route that changes data.
use todo_api.Base.{
  ℕ, String, ◌≡◌, arith, true, false, ◌⊎◌, Option, none, some, find?, Option-cases, inl, inr, ◌==◌,
  nat_eq,
}
use todo_api.Models.User.{User, is_email_verified}
use todo_api.Results.{Result-cases, is_ok}
use todo_api.Database.{Tables, Action, Session, next_answer, ◌>>=◌}
use todo_api.Config.{Settings}
use todo_api.Platform.{Platform}
use todo_api.Repositories.User.{get_user_by_id}
use todo_api.Dependencies.{
  get_current_user, select_access_token, access_token_user_id, authenticate_access_token,
}
use todo_api.Dependencies.Subject.{IsTokenOf, IsSelected}
use todo_api.Dependencies.Access.{get_current_user-admits}
use todo_api.Dependencies.Browser.{
  validate_request_origin, require_csrf_token, access_cookie_name, csrf_cookie_name,
}
use todo_api.Dependencies.Browser.Guards.{
  IsTrusted, IsBearer, IsDoubleSubmitted, validate_request_origin-IsTrusted,
  require_csrf_token-IsDoubleSubmitted,
}
use todo_api.Routes.Guarded.{Call, writing_user}

-- Authentication only reads.
pub get_current_user-reads :
    (p : Platform) (settings : Settings) (token cookie_token : Option String) (now : ℕ)
    (s : Session)
    → let s' = (get_current_user p settings token cookie_token now s).1 in
      (s'.db ≡ s.db) × (s'.stored ≡ s.stored)
unfolding get_current_user authenticate_access_token get_user_by_id
get_current_user-reads p settings token cookie_token now s =
    elim (Result-cases (select_access_token token cookie_token)) [
      | inr (e, missing) ↦ (ground arith, ground arith)
      | inl (selected, chosen) ↦
          elim (Result-cases (access_token_user_id p settings selected now)) [
            | inr (e, bad) ↦ (ground arith, ground arith)
            | inl (user_id, read) ↦ elim (Option-cases (next_answer s.answers)) [
              | inr (e, failed) ↦ (ground arith, ground arith)
              | inl answered ↦ (ground arith, ground arith)
            ]
          ]
    ]

-- A user whom the dependencies of a changing route let in.
pub record IsAdmitted (p : Platform) (settings : Settings) (call : Call) (db : Tables) (u : User)
    : Type 0 where
  pub trusted : IsTrusted p settings call.request
  pub wanted :
      IsBearer p (call.request.header "authorization")
      ⊎ (call.request.cookie access_cookie_name ≡ none)
      ⊎ IsDoubleSubmitted call.csrf_header (call.request.cookie csrf_cookie_name)
  pub selected : String
  pub user_id : ℕ
  pub chosen : IsSelected call.token (call.request.cookie access_cookie_name) selected
  pub subject : IsTokenOf p settings selected call.now user_id
  pub account : find? (λ x. x.id == user_id) db.users ≡ some u
  pub active : u.is_active ≡ true
  pub confirmed : is_email_verified u ≡ true

-- Either a changing route stops at its dependencies and stores nothing, or it goes on as an admitted
-- user, over the same tables.
pub writing_user-cases :
    {A : Type 0} (p : Platform) (settings : Settings) (call : Call) (k : User → Action A)
    (s : Session)
    → let out = (writing_user p settings call >>= k) s in
      ((is_ok out.0 ≡ false) × (out.1.stored ≡ s.stored))
      ⊎ ((u : User) × (s' : Session) × IsAdmitted p settings call s.db u
          × (s'.db ≡ s.db)
          × (s'.stored ≡ s.stored)
          × (out ≡ k u s'))
writing_user-cases p settings call k s =
    elim (Result-cases (validate_request_origin p settings call.request)) [
      | inr (e, foreign) ↦ inl (ground arith, ground arith)
      | inl (done, same_site) ↦
          elim (Result-cases (require_csrf_token p call.csrf_header call.request)) [
            | inr (e, forged) ↦ inl (ground arith, ground arith)
            | inl (done', wanted) ↦
                let token = call.token in
                let cookie_token = call.request.cookie access_cookie_name in
                let (reads, keeps) =
                  get_current_user-reads p settings token cookie_token call.now s in
                elim (Result-cases (get_current_user p settings token cookie_token call.now s).0) [
                  | inr (e, unknown) ↦ inl (ground arith, ground arith)
                  | inl (u, known) ↦
                      let (selected, user_id, chosen, subject, account, active, confirmed, same) =
                        get_current_user-admits p settings token cookie_token call.now s u known in
                      inr (
                        u,
                        (get_current_user p settings token cookie_token call.now s).1,
                        record {
                          trusted =
                              validate_request_origin-IsTrusted p settings call.request same_site;
                          wanted =
                              require_csrf_token-IsDoubleSubmitted p call.csrf_header call.request
                                wanted;
                          selected = selected;
                          user_id = user_id;
                          chosen = chosen;
                          subject = subject;
                          account = account;
                          active = active;
                          confirmed = confirmed;
                        },
                        reads,
                        keeps,
                        ground arith,
                      )
                ]
          ]
    ]
