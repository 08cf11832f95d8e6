-- ===== src/Routes/Accounts.antt =====
-- api/v1/routes/users.py and api/v1/routes/api_key.py: the profile, the deactivation of an account and
-- its API keys. None of these routes checks the origin or the CSRF token.
use todo_api.Base.{ℕ, String, Bool, Option, List, [], ◌∷◌}
use todo_api.Models.User.{User}
use todo_api.Models.ApiKey.{ApiKey}
use todo_api.Database.{Action, ◌>>=◌, ◌>>◌, pure}
use todo_api.Config.{Settings}
use todo_api.Platform.{Platform}
use todo_api.Repositories.Todo.{Inserted}
use todo_api.Services.Users.{update_profile, deactivate_account}
use todo_api.Services.ApiKeys.{ApiKeyCreated, issue, revoke}
use todo_api.Services.ApiKeys
use todo_api.Routes.Guarded.{Call, Reply, current_user}

abbrev done_to : String → String → ℕ → ℕ → Reply (Unit {0})
done_to event resource_type user_id resource_id = record {
  body = tt;
  cleared = [];
  activities =
      record {
        event = event;
        user_id = user_id;
        resource_type = resource_type;
        resource_id = resource_id;
      }
      ∷ [];
}

module _ (p : Platform) (settings : Settings) (call : Call) where
  pub update_current_user : Option String → Action User
  update_current_user full_name = do
    user ← current_user p settings call
    update_profile user full_name

  pub deactivate_current_user : Action (Reply (Unit {0}))
  deactivate_current_user = do
    user ← current_user p settings call
    deactivate_account user
    pure (done_to "user.deactivated" "user" user.id user.id)

  -- `raw_key` is the key that the service draws.
  pub create_api_key : Inserted → String → String → Action ApiKeyCreated
  create_api_key ins name raw_key = do
    user ← current_user p settings call
    issue p ins user.id name raw_key

  pub get_api_keys : (List ApiKey → List ApiKey) → Bool → Action (List ApiKey)
  get_api_keys newest_first include_revoked = do
    user ← current_user p settings call
    ApiKeys.list newest_first user.id include_revoked

  pub delete_api_key : ℕ → Action (Reply (Unit {0}))
  delete_api_key api_key_id = do
    user ← current_user p settings call
    revoke user.id api_key_id
    pure (done_to "api_key.revoked" "api_key" user.id api_key_id)
