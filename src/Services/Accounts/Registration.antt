-- ===== src/Services/Accounts/Registration.antt =====
-- Registration: one account for an email address, and none of it left behind by a failure.
use todo_api.Base.{
  ℕ, String, ◌≡◌, refl, arith, Bool, true, false, Option, none, some, List, [], ◌∷◌, ◌++◌, find?,
  Option-cases, Bool-cases, inl, inr, ◌==◌, string_eq, ◌⊎◌,
}
use todo_api.Exceptions
use todo_api.Exceptions.{SqlError, integrity_error, app}
use todo_api.Exceptions.Auth.{invalid_credentials}
use todo_api.Models.User.{User, is_email_verified}
use todo_api.Results.{is_ok}
use todo_api.Database.{Tables, Session, ok, err, run, next_answer, later_answers}
use todo_api.Platform.{Platform}
use todo_api.Repositories.User.{get_user_by_email, create_user}
use todo_api.Services.Accounts.{
  UserCreate, _register, register, authenticate, normalize_email, new_user, password_hash_of,
  with_replacement,
}

-- A registration, with whatever failures of the database, either fails and stores nothing, or stores
-- exactly one more account: one with the given address and the hash of the given password, where no
-- account had that address.
pub register-cases :
    (p : Platform) (id : ℕ) (payload : UserCreate) (is_superuser : Bool) (now : ℕ)
    (answers : List (Option SqlError)) (db : Tables)
    → let out = run (register p id payload is_superuser now) answers db in
      ((is_ok out.0 ≡ false) × (out.1 ≡ db))
      ⊎ ((u : User) × (out.0 ≡ ok u)
          × (out.1 ≡ record db { users = db.users ++ u ∷ [] })
          × (u.email ≡ payload.email)
          × (p.hash payload.password ≡ some u.hashed_password)
          × (find? (λ x. x.email == payload.email) db.users ≡ none))
unfolding register _register get_user_by_email create_user
register-cases p id payload is_superuser now answers db =
    elim (Option-cases (next_answer answers)) [
      | inr (e, failed) ↦ inl (ground arith, ground arith)
      | inl answered ↦ elim (Option-cases (find? (λ x. x.email == payload.email) db.users)) [
        | inr (u, taken) ↦ inl (ground arith, ground arith)
        | inl fresh ↦ elim (Option-cases (p.hash payload.password)) [
          | inl broken ↦ inl (ground arith, ground arith)
          | inr (h, hashed) ↦ elim (Option-cases (next_answer (later_answers answers))) [
            | inr (e, failed) ↦ inl (ground arith, ground arith)
            | inl flushed ↦
                elim (Option-cases (next_answer (later_answers (later_answers answers)))) [
                  | inr (e, failed) ↦ inl (ground arith, ground arith)
                  | inl stored ↦ inr (
                    new_user id payload is_superuser (some now) none none none h,
                    ground arith,
                    ground arith,
                    refl,
                    hashed,
                    fresh,
                  )
                ]
          ]
        ]
      ]
    ]

-- An authentication succeeds only for an account that is active and confirmed, has the normalized
-- address, and whose stored hash the password verifies against.
pub authenticate-accepted :
    (p : Platform) (dummy email password : String) (s : Session) (u : User)
    → (authenticate p dummy email password s).0 ≡ ok u
    → (holder : User) × (replacement : Option String) × (find?
          (λ x. x.email == normalize_email p email)
          s.db.users
        ≡ some holder)
      × (p.verify_and_update password holder.hashed_password ≡ some (true, replacement))
      × (holder.is_active ≡ true)
      × (is_email_verified holder ≡ true)
      × (u ≡ with_replacement replacement holder)
unfolding authenticate get_user_by_email
authenticate-accepted p dummy email password s u done =
    elim (Option-cases (next_answer s.answers)) [
      | inr (e, failed) ↦ absurd (ground arith)
      | inl answered ↦
          elim (Option-cases (find? (λ x. x.email == normalize_email p email) s.db.users)) [
            | inl nobody ↦ elim (Option-cases (p.verify_and_update password dummy)) [
              | inl broken ↦ absurd (ground arith)
              | inr ((valid, replacement), checked) ↦ absurd (ground arith)
            ]
            | inr (holder, found) ↦
                elim (Option-cases (p.verify_and_update password holder.hashed_password)) [
                  | inl broken ↦ absurd (ground arith)
                  | inr ((valid, replacement), checked) ↦ elim (Bool-cases valid) [
                    | inr wrong ↦ absurd (ground arith)
                    | inl right ↦ elim (Bool-cases holder.is_active) [
                      | inr off ↦ absurd (ground arith)
                      | inl on ↦ elim (Bool-cases (is_email_verified holder)) [
                        | inr unverified ↦ absurd (ground arith)
                        | inl confirmed ↦
                            (holder, replacement, found, ground arith, on, confirmed, ground arith)
                      ]
                    ]
                  ]
                ]
          ]
    ]

-- Where the query succeeds and the password does not verify against the account's hash, or for an
-- unknown address against the dummy hash, the answer is the same error and nothing changes: it does
-- not tell whether the address is registered.
pub authenticate-hides_addresses :
    (p : Platform) (dummy email password : String) (s : Session) (replacement : Option String)
    → next_answer s.answers ≡ none
    → p.verify_and_update password
        (password_hash_of dummy (find? (λ x. x.email == normalize_email p email) s.db.users))
      ≡ some (false, replacement)
    → (authenticate p dummy email password s) ≡ (
      err (app (Exceptions.auth invalid_credentials)),
      record s { answers = later_answers s.answers },
    )
unfolding authenticate get_user_by_email
authenticate-hides_addresses p dummy email password s replacement answered wrong =
    elim (Option-cases (find? (λ x. x.email == normalize_email p email) s.db.users)) [
      | inl nobody ↦ ground arith
      | inr (u, found) ↦ ground arith
    ]
