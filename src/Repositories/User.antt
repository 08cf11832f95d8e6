-- ===== src/Repositories/User.antt =====
-- repositories/user.py: the queries on the table of users.
use todo_api.Base.{
  ℕ, String, Bool, ◌&&◌, ◌==◌, nat_eq, string_eq, Option, none, [], ◌∷◌, ◌++◌, is_some, is_none,
  leb, find?, update_where, count_where,
}
use todo_api.Models.User.{User}
use todo_api.Database.{Tables, Action, ◌>>=◌, ◌>>◌, pure, gets, modify, call}
use todo_api.Repositories.Todo.{holds_of}

unfoldable pub get_user_by_id : ℕ → Action (Option User)
get_user_by_id user_id = do call; gets (λ db. find? (λ u. u.id == user_id) db.users)

unfoldable pub get_user_by_email : String → Action (Option User)
get_user_by_email email = do call; gets (λ db. find? (λ u. u.email == email) db.users)

unfoldable pub create_user : User → Action User
create_user row = do modify (λ db. record db { users = db.users ++ row ∷ [] }); call; pure row

-- The UPDATE of one row, by its primary key.
abbrev pub save_user : User → Tables → Tables
save_user u db = record db { users = update_where (λ r. r.id == u.id) (λ _. u) db.users }

abbrev pub has_expired_token : ℕ → User → Bool
has_expired_token expired_at u =
    is_none u.email_verified_at
    && is_some u.email_verification_token_hash
    && holds_of (λ at. leb at expired_at) u.email_verification_expires_at

abbrev pub without_token : User → User
without_token u = record u {
  email_verification_token_hash = none;
  email_verification_expires_at = none;
  email_verification_requested_at = none;
}

unfoldable pub clear_expired_email_verification_tokens : ℕ → Action ℕ
clear_expired_email_verification_tokens expired_at = do
  call
  cleared ← gets (λ db. count_where (has_expired_token expired_at) db.users)
  modify (λ db. record db {
    users = update_where (has_expired_token expired_at) without_token db.users;
  })
  pure cleared
