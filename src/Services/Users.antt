-- ===== src/Services/Users.antt =====
-- services/user.py: the profile and the deactivation of an account. The user is the row that the
-- session holds for the request.
pub mod Lockout
pub mod Tests
use todo_api.Base.{ℕ, String, not, true, false, Option, if◌then◌else◌}
use todo_api.Exceptions
use todo_api.Exceptions.User.{profile_update_unavailable, account_deactivation_unavailable}
use todo_api.Models.User.{User}
use todo_api.Database.{Action, ◌>>=◌, ◌>>◌, pure, modify, call, commit, except_sql}
use todo_api.Repositories.User.{save_user}

unfoldable pub update_profile : User → Option String → Action User
update_profile user full_name = do
  let updated : User = record user { full_name = full_name }
  modify (save_user updated)
  except_sql (do call; call; commit) (Exceptions.user profile_update_unavailable)
  pure updated

abbrev pub deactivated : User → User
deactivated user = record user { is_active = false }

unfoldable pub deactivate_account : User → Action (Unit {0})
deactivate_account user = if not user.is_active then pure tt else (do
  modify (save_user (deactivated user))
  except_sql commit (Exceptions.user account_deactivation_unavailable))
