-- ===== src/Models/User.antt =====
-- models/user.py: an account. The relationships are the other tables' `user_id` columns.
use todo_api.Base.{ℕ, String, Bool, Option, is_some}

pub record User : Type 0 where
  pub id : ℕ
  pub email : String
  pub full_name : Option String
  pub hashed_password : String
  pub email_verified_at : Option ℕ
  pub email_verification_token_hash : Option String
  pub email_verification_expires_at : Option ℕ
  pub email_verification_requested_at : Option ℕ
  pub is_active : Bool
  pub is_superuser : Bool

abbrev pub is_email_verified : User → Bool
is_email_verified u = is_some u.email_verified_at
