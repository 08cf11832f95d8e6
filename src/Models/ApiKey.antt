-- ===== src/Models/ApiKey.antt =====
-- models/api_key.py: an API key, known by its hash.
use todo_api.Base.{ℕ, String, Bool}

pub record ApiKey : Type 0 where
  pub id : ℕ
  pub user_id : ℕ
  pub name : String
  pub key_hash : String
  pub is_active : Bool
  pub created_at : ℕ
