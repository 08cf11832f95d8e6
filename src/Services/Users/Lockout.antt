-- ===== src/Services/Users/Lockout.antt =====
-- An account that was deactivated, and the ways in.
use todo_api.Base.{
  ℕ, String, ◌≡◌, refl, sym, ap, ◌∙◌, subst, arith, Bool, true, false, Option, none, some, List, [],
  ◌∷◌, find?, find?-All, find?-meets, All, update_where, Option-cases, Bool-cases, inl, inr, ◌==◌,
  nat_eq, string_eq,
}
use todo_api.Exceptions.{SqlError}
use todo_api.Models.User.{User}
use todo_api.Text.Decimal.{pos, int}
use todo_api.Results.{is_ok}
use todo_api.Database.{Action, Tables, Session, ok, run, next_answer}
use todo_api.Config.{Settings}
use todo_api.Platform.{Platform}
use todo_api.Tokens.{RefreshTokenPayload}
use todo_api.Tokens.Create.{Nonces}
use todo_api.Tokens.Decode.{decode_refresh_token}
use todo_api.Repositories.User.{save_user}
use todo_api.Services.Sessions.{refresh_login_session, find_user}
use todo_api.Services.Sessions.Accepted.{refresh_login_session-IsAccepted}
use todo_api.Services.Accounts.{authenticate, normalize_email, with_replacement}
use todo_api.Services.Accounts.Registration.{authenticate-accepted}
use todo_api.Models.OauthAuthorizationCode.{OauthAuthorizationCode}
use todo_api.Repositories.Oauth.{is_consumable}
use todo_api.Services.OauthFlow.{TokenRequest, grant_of, exchange_authorization_code}
use todo_api.Services.OauthFlow.Exchange.{exchange-cases}
use todo_api.Services.Users.{deactivate_account, deactivated}
use todo_api.Dependencies.{get_current_user, get_current_basic_user, authenticate_api_key}
use todo_api.Dependencies.Access.{
  get_current_user-admits, get_current_basic_user-admits, authenticate_api_key-admits,
}

-- Every row with that identifier is inactive.
abbrev pub IsInactive : ℕ → Tables → Type 0
IsInactive id db = All (λ u. (u.id == id) ≡ true → u.is_active ≡ false) db.users

deactivated-IsInactive :
    (user : User) (rows : List User)
    → All
        (λ u. (u.id == user.id) ≡ true → u.is_active ≡ false)
        (update_where (λ r. r.id == user.id) (λ _. deactivated user) rows)
deactivated-IsInactive user [] = tt
deactivated-IsInactive user (x ∷ xs) = elim (Bool-cases (x.id == user.id)) [
  | inl same ↦ rw same ((λ e. refl), deactivated-IsInactive user xs)
  | inr other ↦ simp other ((λ e. absurd (ground arith)), deactivated-IsInactive user xs)
]

-- A deactivation of an active account that succeeds leaves the account inactive in the stored tables.
pub deactivate_account-IsInactive :
    (user : User) (answers : List (Option SqlError)) (db : Tables)
    → user.is_active ≡ true
    → (run (deactivate_account user) answers db).0 ≡ ok tt
    → IsInactive user.id (run (deactivate_account user) answers db).1
unfolding deactivate_account
deactivate_account-IsInactive user answers db on done =
    let stores : (run (deactivate_account user) answers db).1 ≡ save_user (deactivated user) db =
      elim (Option-cases (next_answer answers)) [
        | inr (e, failed) ↦ absurd (ground arith)
        | inl stored ↦ ground arith
      ] in
    subst (IsInactive user.id) (sym stores) (deactivated-IsInactive user db.users)

module _ (id : ℕ) where
  found_other :
      (p : User → Bool) (db : Tables) (u : User)
      → IsInactive id db
      → find? p db.users ≡ some u
      → u.is_active ≡ true
      → (u.id == id) ≡ false
  found_other p db u h found active = elim (Bool-cases (u.id == id)) [
    | inr other ↦ other
    | inl same ↦
        let off =
          find?-All (λ x. (x.id == id) ≡ true → x.is_active ≡ false) p db.users u h found same in
        absurd (ground arith)
  ]

with_replacement-id : (o : Option String) (u : User) → (with_replacement o u).id ≡ u.id
with_replacement-id none u = refl
with_replacement-id (some h) u = refl

-- The ways in which a request names an account: by a Bearer token or the access cookie, by Basic
-- credentials, by an API key, or by the password of a login or of an authorization.
pub data Way : Type 0 where
  access_token : Option String → Option String → ℕ → Way
  basic : Option (String × String) → Way
  api_key : Option String → Way
  password : String → String → Way

-- The service's answer to such a request, over the hash that stands in for unknown users.
unfoldable pub enter : Platform → Settings → String → Way → Action User
enter p settings dummy (access_token token cookie_token now) =
    get_current_user p settings token cookie_token now
enter p settings dummy (basic credentials) = get_current_basic_user p dummy credentials
enter p settings dummy (api_key key) = authenticate_api_key p key
enter p settings dummy (password email secret) = authenticate p dummy email secret

-- None of these lets the account in.
enter-IsActive :
    (p : Platform) (settings : Settings) (dummy : String) (w : Way) (id : ℕ) (s : Session)
    (u : User)
    → IsInactive id s.db
    → (enter p settings dummy w s).0 ≡ ok u
    → (u.id == id) ≡ false
unfolding enter
enter-IsActive p settings dummy (access_token token cookie_token now) id s u h done =
    let (selected, user_id, _, _, found, active, _, _) =
      get_current_user-admits p settings token cookie_token now s u done in
    found_other id (λ x. x.id == user_id) s.db u h found active
enter-IsActive p settings dummy (basic credentials) id s u h done =
    let (username, secret, _, found, _, active, _) =
      get_current_basic_user-admits p dummy credentials s u done in
    found_other id (λ x. x.email == normalize_email p username) s.db u h found active
enter-IsActive p settings dummy (api_key key) id s u h done =
    let (k, _, found, active, _) = authenticate_api_key-admits p key s u done in
    found_other id (λ x. x.id == k.user_id) s.db u h found active
enter-IsActive p settings dummy (password email secret) id s u h done =
    let (holder, replacement, found, _, active, _, e) =
      authenticate-accepted p dummy email secret s u done in
    let other =
      found_other id (λ x. x.email == normalize_email p email) s.db holder h found active in
    ap (λ x. x.id == id) e ∙ ap (λ n. n == id) (with_replacement-id replacement holder) ∙ other

-- A refresh that succeeds is for another account.
refresh-locked_out :
    (p : Platform) (settings : Settings) (nonces : Nonces) (token : String) (now checked_at id : ℕ)
    (s : Session) (payload : RefreshTokenPayload)
    → IsInactive id s.db
    → decode_refresh_token p settings token now ≡ ok payload
    → int payload.base.sub ≡ some (pos id)
    → is_ok (refresh_login_session p settings nonces token now checked_at s).0 ≡ false
refresh-locked_out p settings nonces token now checked_at id s payload h read subject =
    elim (Bool-cases (is_ok (refresh_login_session p settings nonces token now checked_at s).0)) [
      | inr refused ↦ refused
      | inl done ↦
          let a = refresh_login_session-IsAccepted p settings nonces now checked_at token s done in
          let same_payload : a.payload ≡ payload = ground (arith, a.read) in
          let same_id : a.user_id ≡ pos id = ground (arith, a.subject) in
          let found : find? (λ x. x.id == id) s.db.users ≡ some a.user =
            subst (λ n. find_user n s.db ≡ some a.user) same_id a.has_user in
          let other = found_other id (λ x. x.id == id) s.db a.user h found a.active in
          let hit = find?-meets (λ x. x.id == id) s.db.users a.user found in absurd (ground arith)
    ]

-- Which account a request is let in as: the user whom an authentication gives, the subject of the
-- refresh token that a refresh takes, and the user of the authorization code that an exchange takes.
pub data LetsIn (p : Platform) (settings : Settings) (dummy : String) (s : Session) (id : ℕ)
    : Type 0 where
  entered :
      (w : Way) (u : User)
      → u.id ≡ id
      → (enter p settings dummy w s).0 ≡ ok u
      → LetsIn p settings dummy s id
  refreshed :
      (nonces : Nonces) (token : String) (now checked_at : ℕ) (payload : RefreshTokenPayload)
      → decode_refresh_token p settings token now ≡ ok payload
      → int payload.base.sub ≡ some (pos id)
      → is_ok (refresh_login_session p settings nonces token now checked_at s).0 ≡ true
      → LetsIn p settings dummy s id
  exchanged :
      (nonces : Nonces) (request : TokenRequest) (now checked_at : ℕ)
      (code : OauthAuthorizationCode)
      → find? (is_consumable (grant_of p request) now) s.stored.oauth_authorization_codes
        ≡ some code
      → code.user_id ≡ id
      → is_ok (exchange_authorization_code p settings nonces request now checked_at s).0 ≡ true
      → LetsIn p settings dummy s id

-- An account whose rows are inactive is let in by none of these ways, at any time and with any token,
-- key, password or code: a Bearer token or the access cookie, Basic credentials, an API key, the
-- password of a login, a refresh token, and an authorization code. The session has no changes of its
-- own.
pub enter-locked_out :
    (p : Platform) (settings : Settings) (dummy : String) (id : ℕ) (s : Session)
    → s.db ≡ s.stored
    → IsInactive id s.db
    → ¬ (LetsIn p settings dummy s id)
enter-locked_out p settings dummy id s clean h (entered w u same done) =
    let other = enter-IsActive p settings dummy w id s u h done in absurd (ground arith)
enter-locked_out p settings dummy id s clean h
      (refreshed nonces token now checked_at payload read subject done) =
    let refused =
      refresh-locked_out p settings nonces token now checked_at id s payload h read subject in
    absurd (ground arith)
enter-locked_out p settings dummy id s clean h
      (exchanged nonces request now checked_at code found owner done) =
    elim (exchange-cases p settings nonces request now checked_at s clean) [
      | inl failed ↦ absurd (ground arith)
      | inr (t, is, x) ↦
          let same : x.code ≡ code = ground (arith, x.found) in
          let hit = find?-meets (λ u. u.id == x.code.user_id) s.stored.users x.user x.has_user in
          let other =
            found_other id (λ u. u.id == x.code.user_id) s.stored x.user
              (subst (IsInactive id) clean h) x.has_user x.active in
          absurd (ground arith)
    ]
