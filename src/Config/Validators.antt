-- ===== src/Config/Validators.antt =====
-- core/config.py: the validators of the settings. `err value_error` stands for any `ValueError`, of
-- `urlsplit` or of the validator itself; the database's URL is checked by SQLAlchemy and left out.
use todo_api.Base.{
  ℕ, String, Bool, true, false, not, ◌&&◌, ◌||◌, ◌==◌, string_eq, ltb, List, [], ◌∷◌, is_in,
  if◌then◌else◌, Option, none, some,
}
use todo_api.Text.{strip, is_empty, rstrip_char, ◌<>◌}
use todo_api.Text.Split.{contains_char, starts_with, utf8_length, distinct_chars}
use todo_api.Text.Url.{Url, urlsplit, has_username, has_password, has_hostname}
use todo_api.Exceptions.{value_error}
use todo_api.Results.{Result, ok, err, ◌>>=◌, ◌>>◌, ensure, or_raise}
use todo_api.Platform.{Platform}
use todo_api.Config.{Settings, AppEnv, development, test, staging, production}

abbrev pub check : Bool → Result (Unit {0})
check condition = ensure condition value_error

abbrev pub split_url : Platform → String → Result Url
split_url p url = or_raise (urlsplit p url) value_error

abbrev pub is_web : String → Bool
is_web scheme = is_in scheme ("http" ∷ "https" ∷ [])

-- A blank option of the mails is none.
unfoldable pub empty_mail_options_are_none : Option String → Option String
empty_mail_options_are_none none = none
empty_mail_options_are_none (some value) = if is_empty (strip value) then none else some value

unfoldable pub validate_mail_server : String → Result String
validate_mail_server value = do check (not (is_empty (strip value))); ok (strip value)

unfoldable pub validate_apscheduler_redis_key : String → Result String
validate_apscheduler_redis_key value = do check (not (is_empty (strip value))); ok (strip value)

unfoldable pub validate_email_verification_url : Platform → String → Result String
validate_email_verification_url p value = do
  parsed ← split_url p (strip value)
  check (is_web parsed.scheme && not (is_empty parsed.netloc))
  check (not (has_username parsed) && not (has_password parsed))
  check (is_empty parsed.query && is_empty parsed.fragment)
  ok (strip value)

-- The body of the loop over the origins, but for the test of duplicates.
unfoldable pub checked_origin : Platform → String → Result String
checked_origin p raw_origin = do
  let origin = strip raw_origin
  check (not (is_empty origin))
  check (not (origin == "*"))
  parsed ← split_url p origin
  check (is_web parsed.scheme)
  check (not (is_empty parsed.netloc))
  check (not (has_username parsed) && not (has_password parsed))
  check (is_in parsed.path ("" ∷ "/" ∷ []))
  check (is_empty parsed.query)
  check (is_empty parsed.fragment)
  ok (p.casefold parsed.scheme <> "://" <> p.casefold parsed.netloc)

-- A loop over values that are checked one by one, and refused when they were seen before.
unfoldable pub validated :
    (String → Result String) → List String → List String → Result (List String)
validated checked seen [] = ok []
validated checked seen (raw ∷ rest) = elim (checked raw) [
  | err e ↦ err e
  | ok value ↦
      let others = validated checked (value ∷ seen) rest in
      if is_in value seen
      then err value_error
      else elim others [ err e ↦ err e | ok values ↦ ok (value ∷ values) ]
]

unfoldable pub validate_cors_allowed_origins : Platform → List String → Result (List String)
validate_cors_allowed_origins p values = validated (checked_origin p) [] values

unfoldable pub require_redis_url : Platform → String → Result String
require_redis_url p value = do
  parsed ← split_url p value
  check (is_in parsed.scheme ("redis" ∷ "rediss" ∷ []))
  check (has_hostname parsed)
  check (is_empty parsed.fragment)
  ok value

unfoldable pub require_celery_redis_url : Platform → String → Result String
require_celery_redis_url p value = do
  parsed ← split_url p value
  check (is_in parsed.scheme ("redis" ∷ "rediss" ∷ []))
  check (has_hostname parsed)
  check (is_empty parsed.fragment)
  ok value

unfoldable pub validate_metrics_path : String → Result String
validate_metrics_path value = do
  check (starts_with value "/" && not (value == "/"))
  ok (rstrip_char b'/' value)

unfoldable pub checked_redirect_uri : Platform → String → Result String
checked_redirect_uri p raw_uri = do
  let uri = strip raw_uri
  parsed ← split_url p uri
  check (not (is_empty parsed.scheme))
  check (not (is_web parsed.scheme && is_empty parsed.netloc))
  check (not (contains_char b'#' uri))
  ok uri

unfoldable pub validate_oauth2_redirect_uris : Platform → List String → Result (List String)
validate_oauth2_redirect_uris p values = validated (checked_redirect_uri p) [] values

-- `HMAC_MINIMUM_KEY_BYTES`, for the three algorithms that the field admits.
unfoldable pub minimum_key_bytes : String → ℕ
minimum_key_bytes algorithm =
    if algorithm == "HS256" then 32 else if algorithm == "HS384" then 48 else 64

abbrev pub is_deployed : AppEnv → Bool
is_deployed development = false
is_deployed test = false
is_deployed staging = true
is_deployed production = true

abbrev pub uses_https : Platform → String → Result (Unit {0})
uses_https p url = do parsed ← split_url p url; check (parsed.scheme == "https")

unfoldable pub all_use_https : Platform → List String → Result (Unit {0})
all_use_https p [] = ok tt
all_use_https p (origin ∷ origins) = do uses_https p origin; all_use_https p origins

-- What staging and production ask beyond the rest.
unfoldable pub validate_deployment : Platform → Settings → Result (Unit {0})
unfolding all_use_https
validate_deployment p settings = do
  let normalized = p.casefold (strip settings.secret_key)
  check (not (ltb (distinct_chars normalized) 8 || starts_with normalized "change-this"))
  check settings.auth_cookie_secure
  uses_https p settings.email_verification_url
  all_use_https p settings.cors_allowed_origins

-- `validate_signing_secret`
unfoldable pub validate_signing_secret : Platform → Settings → Result (Unit {0})
unfolding minimum_key_bytes validate_deployment
validate_signing_secret p settings = do
  check (not (settings.apscheduler_jobs_key == settings.apscheduler_run_times_key))
  check (not (settings.mail_starttls && settings.mail_ssl_tls))
  check (
      not (
        settings.mail_use_credentials
        && (is_empty (strip settings.mail_username) || is_empty settings.mail_password)))
  check (not (ltb (utf8_length settings.secret_key) (minimum_key_bytes settings.jwt_algorithm)))
  if is_deployed settings.app_env then validate_deployment p settings else ok tt
