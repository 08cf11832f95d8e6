-- ===== src/Services/Accounts/Tests.antt =====
-- The theorems on accounts at concrete accounts.
use todo_api.Base.{
  ◌≡◌, ◌⊎◌, ◌==◌, ◌++◌, string_eq, String, Option, find?, refl, true, false, none, some, [], ◌∷◌,
  arith,
}
use todo_api.Text.{strip, is_space}
use todo_api.Exceptions
use todo_api.Exceptions.{integrity_error, app}
use todo_api.Exceptions.Auth.{invalid_credentials}
use todo_api.Models.User.{User, is_email_verified}
use todo_api.Results.{is_ok}
use todo_api.Database.{Tables, Session, run, ok, err, next_answer, later_answers}
use todo_api.Repositories.User.{get_user_by_email}
use todo_api.Tokens.{hash_secret}
use todo_api.Samples.{plain_platform, settings, ann, tables}
use todo_api.Services.Accounts.{
  UserCreate, register, verify_email, verified, authenticate, normalize_email, with_replacement,
}
use todo_api.Services.Accounts.{request_email_verification}
use todo_api.Services.Accounts.Cooldown.{gives_token, request_email_verification-cooldown}
use todo_api.Services.Accounts.Verification.{verify_email-once}
use todo_api.Services.Accounts.Registration.{
  register-cases, authenticate-accepted, authenticate-hides_addresses,
}

abbrev bob : UserCreate
bob = record { email = "bob@example.com"; full_name = none; password = "passw0rd" }

register-cases_example :
    let out = run (register plain_platform 9 bob false 100) [] tables in
    ((is_ok out.0 ≡ false) × (out.1 ≡ tables))
    ⊎ ((u : User) × (out.0 ≡ ok u)
        × (out.1 ≡ record tables { users = tables.users ++ u ∷ [] })
        × (u.email ≡ bob.email)
        × (plain_platform.hash bob.password ≡ some u.hashed_password)
        × (find? (λ x. x.email == bob.email) tables.users ≡ none))
register-cases_example = register-cases plain_platform 9 bob false 100 [] tables

abbrev unconfirmed : User
unconfirmed = record ann {
  email_verified_at = none;
  email_verification_token_hash = some "t0ken";
  email_verification_expires_at = some 900;
  email_verification_requested_at = some 300;
}

abbrev before : Tables
before = record tables { users = unconfirmed ∷ [] }

confirmed_ann :
    (run (verify_email plain_platform " t0ken" 500) [] before).0 ≡ ok (verified 500 unconfirmed)
unfolding verify_email hash_secret strip is_space next_answer later_answers
confirmed_ann = refl

verify_email-once_example :
    is_ok
      (run
        (verify_email plain_platform "t0ken " 600)
        []
        (run (verify_email plain_platform " t0ken" 500) [] before).1).0
    ≡ false
unfolding hash_secret strip is_space
verify_email-once_example =
    verify_email-once plain_platform " t0ken" "t0ken " 500 600 [] [] before
      (verified 500 unconfirmed) (omega arith) confirmed_ann refl

abbrev fresh : Session
fresh = record { db = tables; stored = tables; answers = [] }

logged_in : (authenticate plain_platform "dummy" " ann@example.com" "hash:secret" fresh).0 ≡ ok ann
unfolding authenticate get_user_by_email normalize_email strip is_space next_answer
logged_in = refl

authenticate-accepted_example :
    (holder : User) × (replacement : Option String) × (find?
        (λ x. x.email == normalize_email plain_platform " ann@example.com")
        tables.users
      ≡ some holder)
    × (plain_platform.verify_and_update "hash:secret" holder.hashed_password
        ≡ some (true, replacement))
    × (holder.is_active ≡ true)
    × (is_email_verified holder ≡ true)
    × (ann ≡ with_replacement replacement holder)
authenticate-accepted_example =
    authenticate-accepted plain_platform "dummy" " ann@example.com" "hash:secret" fresh ann
      logged_in

authenticate-hides_addresses_example :
    authenticate plain_platform "dummy" "eve@example.com" "guess" fresh
    ≡ (err (app (Exceptions.auth invalid_credentials)), record fresh { answers = later_answers [] })
unfolding next_answer normalize_email strip is_space
authenticate-hides_addresses_example =
    authenticate-hides_addresses plain_platform "dummy" "eve@example.com" "guess" fresh none refl
      refl

abbrev waiting : Tables
waiting = record tables {
  users = record unconfirmed { email_verification_requested_at = none } ∷ [];
}

mails :
    gives_token
      (run
        (request_email_verification plain_platform settings "ann@example.com" "t1" 5)
        []
        waiting).0
    ≡ true
unfolding request_email_verification normalize_email strip is_space next_answer later_answers
mails = refl

request_email_verification-cooldown_example :
    let db' =
      (run
        (request_email_verification plain_platform settings "ann@example.com" "t1" 5)
        []
        waiting).1 in
    let out =
      run (request_email_verification plain_platform settings " ann@example.com" "t2" 6) [] db' in
    (gives_token out.0 ≡ false) × (out.1 ≡ db')
unfolding normalize_email strip is_space
request_email_verification-cooldown_example =
    request_email_verification-cooldown plain_platform settings "ann@example.com" " ann@example.com"
      "t1" "t2" 5 6 [] [] waiting refl (omega arith) mails
