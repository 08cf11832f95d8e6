-- ===== src/Tests.antt =====
-- The theorems on keys, on the periodic jobs, on authentication by token and on error responses, each
-- at a concrete input.
use todo_api.Base.{
  ◌≡◌, ◌⊎◌, ◌&&◌, ◌==◌, nat_eq, string_eq, ℕ, String, find?, refl, true, false, none, some, is_some,
  [], ◌∷◌,
}
use todo_api.Text.{strip, is_space}
use todo_api.Text.Decimal.{int}
use todo_api.Exceptions
use todo_api.Exceptions.Auth.{invalid_basic_credentials}
use todo_api.Exceptions.Handlers.{config_for}
use todo_api.Exceptions.Challenge.{config_for-challenges}
use todo_api.Models.ApiKey.{ApiKey}
use todo_api.Models.User.{is_email_verified}
use todo_api.Results.{is_ok}
use todo_api.Database.{Tables, Session, run, ok, next_answer}
use todo_api.Repositories.ApiKey.{save_api_key}
use todo_api.Repositories.User.{get_user_by_id}
use todo_api.Tokens.{validate_base}
use todo_api.Tokens.Decode.{decode_access_token, decode, base_payload, access_payload}
use todo_api.Models.Todo.{medium}
use todo_api.Services.Todo.{TodoCreate}
use todo_api.Schemas.{validate_create, normalize_title, normalize_description}
use todo_api.Schemas.Stable.{validate_create-stable}
use todo_api.Text.Markup.{markup}
use todo_api.Emails.{create_verification_email, create_welcome_email}
use todo_api.Emails.Markup.{create_email-markup}
use todo_api.Samples.{plain_platform, settings, session, with_session, ann, tables}
use todo_api.Services.ApiKeys.{revoke, revoke-cases}
use todo_api.Maintenance.{
  prune_refresh_sessions, prune_oauth_authorization_codes, clear_expired_verification_tokens,
  auto_archive_completed_todos,
}
use todo_api.Maintenance.Counts.{IsSettled, jobs-IsSettled}
use todo_api.Dependencies.{get_current_user, select_access_token, authenticate_access_token}
use todo_api.Dependencies.Subject.{IsTokenOf, IsSelected}
use todo_api.Dependencies.Access.{get_current_user-admits}

abbrev with_key : Tables
with_key = record tables {
  api_keys =
      record {
        id = 3;
        user_id = 7;
        name = "laptop";
        key_hash = "k";
        is_active = true;
        created_at = 5;
      }
      ∷ [];
}

revoke-cases_example :
    let out = run (revoke 7 3) [] with_key in
    (out.1 ≡ with_key)
    ⊎ ((k : ApiKey) × (find? (λ k. k.user_id == 7 && k.id == 3) with_key.api_keys ≡ some k)
        × (out.1 ≡ save_api_key (record k { is_active = false }) with_key)
        × (is_ok out.0 ≡ true))
revoke-cases_example = revoke-cases 7 3 [] with_key

jobs-IsSettled_example :
    let db = with_session session in
    IsSettled (prune_refresh_sessions 200000000) db
    × IsSettled (prune_oauth_authorization_codes 200000000) db
    × IsSettled (clear_expired_verification_tokens 200000000) db
    × IsSettled (auto_archive_completed_todos 30 200000000) db
jobs-IsSettled_example = jobs-IsSettled 30 200000000 (with_session session)

abbrev fresh : Session
fresh = record { db = tables; stored = tables; answers = [] }

let_in : (get_current_user plain_platform settings none (some "token") 2000000 fresh).0 ≡ ok ann
unfolding get_current_user select_access_token authenticate_access_token get_user_by_id
    decode_access_token decode access_payload base_payload validate_base strip is_space int
    next_answer
let_in = refl

get_current_user-admits_example :
    (selected : String) × (user_id : ℕ) × IsSelected none (some "token") selected
    × IsTokenOf plain_platform settings selected 2000000 user_id
    × (find? (λ x. x.id == user_id) tables.users ≡ some ann)
    × (ann.is_active ≡ true)
    × (is_email_verified ann ≡ true)
    × ((get_current_user plain_platform settings none (some "token") 2000000 fresh).1.stored
        ≡ tables)
get_current_user-admits_example =
    get_current_user-admits plain_platform settings none (some "token") 2000000 fresh ann let_in

config_for-challenges_example :
    ((config_for (Exceptions.auth invalid_basic_credentials)).status_code == 401)
    ≡ is_some (config_for (Exceptions.auth invalid_basic_credentials)).authenticate
config_for-challenges_example = config_for-challenges (Exceptions.auth invalid_basic_credentials)

abbrev sent_todo : TodoCreate
sent_todo = record { title = " tea "; description = some "  "; priority = medium; due_at = none }

abbrev kept_todo : TodoCreate
kept_todo = record { title = "tea"; description = none; priority = medium; due_at = none }

keeps_tea : validate_create sent_todo ≡ some kept_todo
unfolding validate_create normalize_title normalize_description strip is_space
keeps_tea = refl

validate_create-stable_example : validate_create kept_todo ≡ some kept_todo
validate_create-stable_example = validate_create-stable sent_todo kept_todo keeps_tea

create_email-markup_example :
    (markup
        (create_verification_email plain_platform settings "24 hours" "t1" (some "</p>")).html_body
      ≡ markup (create_verification_email plain_platform settings "24 hours" "t2" none).html_body)
    × (markup (create_welcome_email settings (some "</p>")).html_body
        ≡ markup (create_welcome_email settings none).html_body)
create_email-markup_example =
    create_email-markup plain_platform settings "24 hours" "t1" "t2" (some "</p>") none
