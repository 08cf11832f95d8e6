-- ===== src/Dependencies/Access.antt =====
-- Whom the ways of authentication let in.
use todo_api.Base.{
  ℕ, String, ◌≡◌, ◌∙◌, ap, refl, ◌&&◌, string_eq, arith, true, Option, none, some, find?,
  Option-cases, Bool-cases, inl, inr, ◌==◌, nat_eq,
}
use todo_api.Text.{strip, is_empty}
use todo_api.Models.ApiKey.{ApiKey}
use todo_api.Tokens.{given, hash_secret}
use todo_api.Repositories.ApiKey.{get_active_api_key_by_hash}
use todo_api.Services.Accounts.{normalize_email}
use todo_api.Models.User.{User, is_email_verified}
use todo_api.Results.{Result-cases}
use todo_api.Database.{Session, ok, next_answer}
use todo_api.Config.{Settings}
use todo_api.Platform.{Platform}
use todo_api.Repositories.User.{get_user_by_id, get_user_by_email}
use todo_api.Dependencies.Subject.{
  IsTokenOf, IsSelected, access_token_user_id-IsTokenOf, select_access_token-IsSelected,
}
use todo_api.Dependencies.{
  get_current_basic_user, authenticate_api_key, get_current_user, select_access_token,
  authenticate_access_token, access_token_user_id,
}

-- A request is let in by an access token, its explicit one or else that of the cookie, only if the
-- token is verified under the settings' key, issuer and audience of access tokens, and as the stored
-- account whose identifier is the number in the token's subject, not 0, which is active and confirmed at
-- the time of the request; the database stays as it was.
pub get_current_user-admits :
    (p : Platform) (settings : Settings) (token cookie_token : Option String) (now : ℕ)
    (s : Session) (u : User)
    → (get_current_user p settings token cookie_token now s).0 ≡ ok u
    → (selected : String) × (user_id : ℕ) × IsSelected token cookie_token selected
      × IsTokenOf p settings selected now user_id
      × (find? (λ x. x.id == user_id) s.db.users ≡ some u)
      × (u.is_active ≡ true)
      × (is_email_verified u ≡ true)
      × ((get_current_user p settings token cookie_token now s).1.stored ≡ s.stored)
unfolding get_current_user authenticate_access_token get_user_by_id
get_current_user-admits p settings token cookie_token now s u done =
    elim (Result-cases (select_access_token token cookie_token)) [
      | inr (e, missing) ↦ absurd (ground arith)
      | inl (selected, chosen) ↦
          elim (Result-cases (access_token_user_id p settings selected now)) [
            | inr (e, bad) ↦ absurd (ground arith)
            | inl (user_id, read) ↦ elim (Option-cases (next_answer s.answers)) [
              | inr (e, failed) ↦ absurd (ground arith)
              | inl answered ↦ elim (Option-cases (find? (λ x. x.id == user_id) s.db.users)) [
                | inl nobody ↦ absurd (ground arith)
                | inr (x, found) ↦ elim (Bool-cases x.is_active) [
                  | inr off ↦ absurd (ground arith)
                  | inl on ↦ elim (Bool-cases (is_email_verified x)) [
                    | inr unverified ↦ absurd (ground arith)
                    | inl confirmed ↦ (
                      selected,
                      user_id,
                      select_access_token-IsSelected token cookie_token selected chosen,
                      access_token_user_id-IsTokenOf p settings selected now user_id read,
                      ground arith,
                      ground arith,
                      ground arith,
                      ground arith,
                    )
                  ]
                ]
              ]
            ]
          ]
    ]

-- Basic credentials let a user in only as the account of the normalized address, whose password
-- verifies, active and confirmed.
pub get_current_basic_user-admits :
    (p : Platform) (dummy : String) (credentials : Option (String × String)) (s : Session)
    (u : User)
    → (get_current_basic_user p dummy credentials s).0 ≡ ok u
    → (username : String) × (password : String) × (credentials ≡ some (username, password))
      × (find? (λ x. x.email == normalize_email p username) s.db.users ≡ some u)
      × (p.verify password u.hashed_password ≡ some true)
      × (u.is_active ≡ true)
      × (is_email_verified u ≡ true)
unfolding get_current_basic_user get_user_by_email
get_current_basic_user-admits p dummy none s u done = absurd (ground arith)
get_current_basic_user-admits p dummy (some (username, password)) s u done =
    elim (Option-cases (next_answer s.answers)) [
      | inr (e, failed) ↦ absurd (ground arith)
      | inl answered ↦
          elim (Option-cases (find? (λ x. x.email == normalize_email p username) s.db.users)) [
            | inl nobody ↦ elim (Option-cases (p.verify password dummy)) [
              | inl broken ↦ absurd (ground arith)
              | inr (valid, checked) ↦ absurd (ground arith)
            ]
            | inr (x, found) ↦ elim (Option-cases (p.verify password x.hashed_password)) [
              | inl broken ↦ absurd (ground arith)
              | inr (valid, checked) ↦ elim (Bool-cases valid) [
                | inr wrong ↦ absurd (ground arith)
                | inl right ↦ elim (Bool-cases x.is_active) [
                  | inr off ↦ absurd (ground arith)
                  | inl on ↦ elim (Bool-cases (is_email_verified x)) [
                    | inr unverified ↦ absurd (ground arith)
                    | inl confirmed ↦
                        let e : x ≡ u = ground arith in
                        (
                          username,
                          password,
                          refl,
                          found ∙ ap some e,
                          ground arith,
                          ground arith,
                          ground arith,
                        )
                  ]
                ]
              ]
            ]
          ]
    ]

-- An API key lets a user in only as the owner of an active key with its hash, active and confirmed.
pub authenticate_api_key-admits :
    (p : Platform) (api_key : Option String) (s : Session) (u : User)
    → (authenticate_api_key p api_key s).0 ≡ ok u
    → (key : ApiKey) × (find?
          (λ k. k.key_hash == hash_secret p (strip (given api_key)) && k.is_active)
          s.db.api_keys
        ≡ some key)
      × (find? (λ x. x.id == key.user_id) s.db.users ≡ some u)
      × (u.is_active ≡ true)
      × (is_email_verified u ≡ true)
unfolding authenticate_api_key get_active_api_key_by_hash
authenticate_api_key-admits p api_key s u done =
    elim (Bool-cases (is_empty (strip (given api_key)))) [
      | inl nothing ↦ absurd (ground arith)
      | inr something ↦ elim (Option-cases (next_answer s.answers)) [
        | inr (e, failed) ↦ absurd (ground arith)
        | inl answered ↦
            elim (Option-cases (
              find? (λ k. k.key_hash == hash_secret p (strip (given api_key)) && k.is_active)
                s.db.api_keys)) [
                  | inl unknown ↦ absurd (ground arith)
                  | inr (key, found) ↦
                      elim (Option-cases (find? (λ x. x.id == key.user_id) s.db.users)) [
                        | inl nobody ↦ absurd (ground arith)
                        | inr (x, owner) ↦ elim (Bool-cases x.is_active) [
                          | inr off ↦ absurd (ground arith)
                          | inl on ↦ elim (Bool-cases (is_email_verified x)) [
                            | inr unverified ↦ absurd (ground arith)
                            | inl confirmed ↦
                                let e : x ≡ u = ground arith in
                                (key, found, owner ∙ ap some e, ground arith, ground arith)
                          ]
                        ]
                      ]
                ]
      ]
    ]
