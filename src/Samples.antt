-- ===== src/Samples.antt =====
-- Concrete tables and a concrete server for the tests.
use todo_api.Base.{
  List, String, true, false, none, some, [], ◌∷◌, ◌==◌, string_eq, refl, if◌then◌else◌,
}
use todo_api.Text.{◌<>◌}
use todo_api.Models.Todo.{Todo, todo, done, low, high}
use todo_api.Models.User.{User}
use todo_api.Models.RefreshSession.{RefreshSession}
use todo_api.Config.{Settings, test, strict}
use todo_api.Platform.{Platform, Claims, text, numeric_date}
use todo_api.Tokens.Create.{Nonces}
use todo_api.Database.{Tables}
use todo_api.Repositories.Todo.{Postgres}
use todo_api.Services.Todo.Listing.{Rearranges}

-- A server that compares whole texts and leaves rows in the order in which they stand.
abbrev pub plain_server : Postgres
plain_server = record { ilike = λ text pattern. text == pattern; order_by = λ terms rows. rows }

pub plain_server-Rearranges : Rearranges plain_server
plain_server-Rearranges = record {
  keeps = λ P terms rows h. h;
  length-order_by = λ terms rows. refl;
}

abbrev pub milk : Todo
milk = record {
  id = 1;
  user_id = 7;
  title = "milk";
  description = none;
  status = todo;
  priority = low;
  due_at = some 500;
  completed_at = none;
  is_archived = false;
  created_at = 100;
  updated_at = 100;
}

abbrev pub taxes : Todo
taxes = record milk {
  id = 2;
  user_id = 8;
  title = "taxes";
  status = done;
  priority = high;
  completed_at = some 300;
}

abbrev pub ann : User
ann = record {
  id = 7;
  email = "ann@example.com";
  full_name = some "Ann";
  hashed_password = "hash:secret";
  email_verified_at = some 50;
  email_verification_token_hash = none;
  email_verification_expires_at = none;
  email_verification_requested_at = none;
  is_active = true;
  is_superuser = false;
}

abbrev pub tables : Tables
tables = record {
  users = ann ∷ [];
  todos = milk ∷ taxes ∷ [];
  refresh_sessions = [];
  oauth_authorization_codes = [];
  api_keys = [];
}

abbrev pub settings : Settings
settings = record {
  app_name = "Todo";
  app_env = test;
  cors_allowed_origins = [];
  completed_todo_auto_archive_days = 0;
  secret_key = "key";
  jwt_algorithm = "HS256";
  jwt_issuer = "todo";
  jwt_access_audience = "access";
  jwt_refresh_audience = "refresh";
  access_token_expire_minutes = 1;
  refresh_token_expire_days = 1;
  refresh_session_absolute_ttl = 900000000;
  refresh_token_reuse_grace = 0;
  auth_cookie_secure = true;
  auth_cookie_samesite = strict;
  oauth2_public_client_id = "web";
  oauth2_redirect_uris = "app:/callback" ∷ [];
  oauth2_authorization_code_ttl_seconds = 60;
  email_verification_url = "https://todo.example/verify";
  email_verification_token_ttl = 600000000;
  email_verification_resend_cooldown = 60000000;
  apscheduler_jobs_key = "jobs";
  apscheduler_run_times_key = "run_times";
  mail_starttls = false;
  mail_ssl_tls = false;
  mail_use_credentials = false;
  mail_username = "";
  mail_password = "";
}

-- A platform whose tokens all carry Ann's claims for the session below, and whose hashes are the texts
-- with a mark.
abbrev pub access_claims : Claims
access_claims =
    ("sub", text "7")
    ∷ ("exp", numeric_date 100)
    ∷ ("iat", numeric_date 0)
    ∷ ("jti", text "j0000000000000000000000000000000")
    ∷ ("iss", text "todo")
    ∷ ("aud", text "access")
    ∷ ("type", text "access")
    ∷ []

abbrev pub refresh_claims : Claims
refresh_claims =
    ("sub", text "7")
    ∷ ("exp", numeric_date 100)
    ∷ ("iat", numeric_date 0)
    ∷ ("jti", text "j0000000000000000000000000000000")
    ∷ ("iss", text "todo")
    ∷ ("aud", text "refresh")
    ∷ ("type", text "refresh")
    ∷ ("sid", text "s1000000000000000000000000000000")
    ∷ []

abbrev pub write_pairs : List (String × String) → String
write_pairs [] = String.[]
write_pairs ((key, value) ∷ rest) = key <> "=" <> value <> "&" <> write_pairs rest

abbrev pub plain_platform : Platform
plain_platform = record {
  sha256_hexdigest = λ value. value;
  urlsafe_sha256 = λ value. value;
  jwt_encode = λ claims key algorithm. "token";
  jwt_decode = λ token key algorithm issuer audience required now.
      if audience == "access" then some access_claims else some refresh_claims;
  hash = λ password. some password;
  verify_and_update = λ password hash. some (password == hash, none);
  verify = λ password hash. some (password == hash);
  casefold = λ value. value;
  lower = λ value. value;
  upper = λ value. value;
  accepts_netloc = λ netloc. true;
  parse_qsl = λ query. [];
  urlencode = λ pairs. write_pairs pairs;
}

abbrev pub nonces : Nonces
nonces = record {
  session_id = "s2000000000000000000000000000000";
  access_jti = "aaaaaaaaaaaaaaaaaaaaaaaaaaaaaaaa";
  refresh_jti = "rrrrrrrrrrrrrrrrrrrrrrrrrrrrrrrr";
}

abbrev pub session : RefreshSession
session = record {
  id = "s1000000000000000000000000000000";
  user_id = 7;
  token_hash = "other";
  previous_token_hash = some "older";
  expires_at = 100000000;
  absolute_expires_at = 900000000;
  revoked_at = none;
  last_used_at = some 1000000;
  rotated_at = some 1000000;
}

abbrev pub with_session : RefreshSession → Tables
with_session r = record tables { refresh_sessions = r ∷ [] }
