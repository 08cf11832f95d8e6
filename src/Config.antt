-- ===== src/Config.antt =====
-- core/config.py: the settings that the modelled code reads. Spans of time are in microseconds, as
-- the times are.
pub mod Validators
pub mod Checked
pub mod Tests
use todo_api.Base.{ℕ, String, Bool, List, ◌*◌}

pub data AppEnv : Type 0 where
  development test staging production : AppEnv

pub data SameSite : Type 0 where
  lax strict : SameSite

pub record Settings : Type 0 where
  pub app_name : String
  pub app_env : AppEnv
  pub cors_allowed_origins : List String
  pub completed_todo_auto_archive_days : ℕ
  pub secret_key : String
  pub jwt_algorithm : String
  pub jwt_issuer : String
  pub jwt_access_audience : String
  pub jwt_refresh_audience : String
  pub access_token_expire_minutes : ℕ
  pub refresh_token_expire_days : ℕ
  pub refresh_session_absolute_ttl : ℕ
  pub refresh_token_reuse_grace : ℕ
  pub auth_cookie_secure : Bool
  pub auth_cookie_samesite : SameSite
  pub oauth2_public_client_id : String
  pub oauth2_redirect_uris : List String
  pub oauth2_authorization_code_ttl_seconds : ℕ
  pub email_verification_url : String
  pub email_verification_token_ttl : ℕ
  pub email_verification_resend_cooldown : ℕ
  pub apscheduler_jobs_key : String
  pub apscheduler_run_times_key : String
  pub mail_starttls : Bool
  pub mail_ssl_tls : Bool
  pub mail_use_credentials : Bool
  pub mail_username : String
  pub mail_password : String

abbrev pub seconds : ℕ → ℕ
seconds n = n * 1000000

abbrev pub minutes : ℕ → ℕ
minutes n = n * 60000000

abbrev pub days : ℕ → ℕ
days n = n * 86400000000
