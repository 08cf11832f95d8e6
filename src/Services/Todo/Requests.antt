-- ===== src/Services/Todo/Requests.antt =====
-- The calls of the service as one type, so that a history of a client's calls is a list.
use todo_api.Base.{ℕ, Option, List, [], ◌∷◌}
use todo_api.Exceptions.{SqlError}
use todo_api.Database.{Tables, run}
use todo_api.Repositories.Todo.{Postgres, Inserted}
use todo_api.Services.Todo.{
  TodoCreate, TodoUpdate, TodoListQuery, create, get, list, update, delete,
}

pub data Operation : Type 0 where
  create_op : Inserted → TodoCreate → Operation
  get_op : ℕ → Operation
  list_op : TodoListQuery → Operation
  update_op : ℕ → ℕ → ℕ → TodoUpdate → Operation
  delete_op : ℕ → Operation

-- A call by one user, with the server's answers to it.
pub record Request : Type 0 where
  pub user_id : ℕ
  pub operation : Operation
  pub answers : List (Option SqlError)

-- The tables that a call leaves.
unfoldable pub perform : Postgres → ℕ → Operation → List (Option SqlError) → Tables → Tables
perform pg u (create_op ins payload) answers db = (run (create ins u payload) answers db).1
perform pg u (get_op id) answers db = (run (get u id) answers db).1
perform pg u (list_op query) answers db = (run (list pg u query) answers db).1
perform pg u (update_op now at id payload) answers db =
    (run (update now at u id payload) answers db).1
perform pg u (delete_op id) answers db = (run (delete u id) answers db).1

unfoldable pub serve : Postgres → List Request → Tables → Tables
serve pg [] db = db
serve pg (r ∷ rs) db = serve pg rs (perform pg r.user_id r.operation r.answers db)
