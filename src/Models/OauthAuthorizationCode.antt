-- ===== src/Models/OauthAuthorizationCode.antt =====
-- models/oauth_authorization_code.py: a one-time authorization code, known by its hash.
use todo_api.Base.{ℕ, String, Option}

pub record OauthAuthorizationCode : Type 0 where
  pub code_hash : String
  pub user_id : ℕ
  pub client_id : String
  pub redirect_uri : String
  pub code_challenge : String
  pub expires_at : ℕ
  pub consumed_at : Option ℕ
