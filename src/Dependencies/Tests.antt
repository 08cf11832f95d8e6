-- ===== src/Dependencies/Tests.antt =====
-- The checks of requests and of keys, each at a concrete input.
use todo_api.Base.{
  ◌≡◌, refl, arith, true, false, none, some, [], ◌∷◌, if◌then◌else◌, ◌==◌, string_eq, nat_eq,
}
use todo_api.Text.{strip, is_space}
use todo_api.Results.{is_ok}
use todo_api.Database.{Tables, run, ok, next_answer, later_answers}
use todo_api.Config.{Settings}
use todo_api.Tokens.{hash_secret}
use todo_api.Models.ApiKey.{ApiKey}
use todo_api.Repositories.Todo.{Inserted}
use todo_api.Repositories.ApiKey.{get_user_api_key_by_id}
use todo_api.Services.ApiKeys.{issue, revoke}
use todo_api.Dependencies.{authenticate_api_key}
use todo_api.Dependencies.Keys.{authenticate_api_key-issue, authenticate_api_key-revoke}
use todo_api.Dependencies.Browser.{Request, access_cookie_name, csrf_cookie_name}
use todo_api.Samples.{settings, plain_platform, tables, ann}

-- A request of the browser's page of another origin, which the settings allow.
abbrev pub shared_settings : Settings
shared_settings = record settings { cors_allowed_origins = "https://app.example" ∷ [] }

abbrev pub browser_request : Request
browser_request = record {
  method = "POST";
  scheme = "https";
  netloc = "api.example";
  header = λ name. if name == "origin" then some "https://app.example" else none;
  cookie = λ name.
      if name == access_cookie_name
      then some "token"
      else if name == csrf_cookie_name
      then some "c1"
      else if name == "todo_refresh_token"
      then some "token"
      else none;
}

abbrev inserted : Inserted
inserted = record { id = 4; now = 9 }

authenticate_api_key-issue_example :
    let issued = run (issue plain_platform inserted 7 "phone" "key2") [] tables in
    (is_ok issued.0 ≡ true)
    × ((run (authenticate_api_key plain_platform (some "key2")) [] issued.1).0 ≡ ok ann)
unfolding strip is_space
authenticate_api_key-issue_example =
    authenticate_api_key-issue plain_platform inserted "phone" "key2" tables ann refl refl refl refl
      refl refl

abbrev laptop : ApiKey
laptop = record {
  id = 3;
  user_id = 7;
  name = "laptop";
  key_hash = "k";
  is_active = true;
  created_at = 5;
}

abbrev with_laptop : Tables
with_laptop = record tables { api_keys = laptop ∷ [] }

revokes : (run (revoke 7 3) [] with_laptop).0 ≡ ok tt
unfolding revoke get_user_api_key_by_id next_answer later_answers
revokes = refl

authenticate_api_key-revoke_example :
    is_ok
      (run
        (authenticate_api_key plain_platform (some "k"))
        []
        (run (revoke 7 3) [] with_laptop).1).0
    ≡ false
unfolding strip is_space hash_secret
authenticate_api_key-revoke_example =
    authenticate_api_key-revoke plain_platform 7 3 "k" [] [] with_laptop laptop (omega arith) refl
      refl refl revokes
