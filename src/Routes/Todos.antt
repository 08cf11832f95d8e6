-- ===== src/Routes/Todos.antt =====
-- api/v1/routes/todos.py: the endpoints of todos. The decorator `cache`, which may answer a read from
-- the store, is a library's.
pub mod Writes
use todo_api.Base.{ℕ, String, List, [], ◌∷◌}
use todo_api.Models.Todo.{Todo}
use todo_api.Models.User.{User}
use todo_api.Database.{Action, ◌>>=◌, ◌>>◌, pure, lift}
use todo_api.Config.{Settings}
use todo_api.Platform.{Platform}
use todo_api.Dependencies.Browser.{require_csrf_token}
use todo_api.Repositories.Todo.{Postgres, Inserted}
use todo_api.Services.Todo.{TodoCreate, TodoUpdate, TodoListQuery, TodoListResponse}
use todo_api.Services
use todo_api.Cache.{cleared_namespace}
use todo_api.Routes.Guarded.{Call, Reply, Activity, current_user, writing_user}

abbrev activity : String → ℕ → ℕ → Activity
activity event user_id todo_id = record {
  event = event;
  user_id = user_id;
  resource_type = "todo";
  resource_id = todo_id;
}

-- A write clears what the cache holds for its user.
abbrev written : {A : Type 0} → A → ℕ → Activity → Reply A
written body user_id done = record {
  body = body;
  cleared = cleared_namespace user_id ∷ [];
  activities = done ∷ [];
}

abbrev pub created : User → Todo → Reply Todo
created user todo = written todo user.id (activity "todo.created" user.id todo.id)

abbrev pub updated : User → Todo → Reply Todo
updated user todo = written todo user.id (activity "todo.updated" user.id todo.id)

abbrev pub removed : ℕ → User → Unit {0} → Reply (Unit {0})
removed todo_id user done = written done user.id (activity "todo.deleted" user.id todo_id)

module _ (p : Platform) (settings : Settings) (call : Call) where
  unfoldable pub create_todo : Inserted → TodoCreate → Action (Reply Todo)
  create_todo ins payload = do
    user ← writing_user p settings call
    todo ← Services.Todo.create ins user.id payload
    pure (created user todo)

  pub list_todos : Postgres → TodoListQuery → Action TodoListResponse
  list_todos pg query = do user ← current_user p settings call; Services.Todo.list pg user.id query

  pub get_todo : ℕ → Action Todo
  get_todo todo_id = do
    lift (require_csrf_token p call.csrf_header call.request)
    user ← current_user p settings call
    Services.Todo.get user.id todo_id

  -- The two times are those of the service's `update`.
  unfoldable pub update_todo : ℕ → ℕ → ℕ → TodoUpdate → Action (Reply Todo)
  update_todo now updated_at todo_id payload = do
    user ← writing_user p settings call
    todo ← Services.Todo.update now updated_at user.id todo_id payload
    pure (updated user todo)

  unfoldable pub remove_todo : ℕ → Action (Reply (Unit {0}))
  remove_todo todo_id = do
    user ← writing_user p settings call
    done ← Services.Todo.delete user.id todo_id
    pure (removed todo_id user done)
