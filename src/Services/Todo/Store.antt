-- ===== src/Services/Todo/Store.antt =====
-- What the service promises: a store of todos by owner and identifier, and its steps.
use todo_api.Base.{
  ℕ, ◌≡◌, sym, subst, ◌&&◌, Option, none, some, List, ◌==◌, nat_eq, find?, if◌then◌else◌,
}
use todo_api.Exceptions.{Raised, SqlError}
use todo_api.Models.Todo.{Todo}
use todo_api.Database.{Tables, Result, run, ok, err}
use todo_api.Repositories.Todo.{Postgres, Inserted, is_owned}
use todo_api.Services.Todo.{
  TodoCreate, TodoUpdate, TodoListQuery, TodoListResponse, updated_row, create, update, delete, get,
  list,
}
use todo_api.Services.Todo.Requests.{Operation, create_op, get_op, list_op, update_op, delete_op}
use todo_api.Services.Todo.Update.{IsNew, HasSentFields}

-- The todo of an owner and an identifier.
abbrev pub Store : Type 0
Store = ℕ → ℕ → Option Todo

abbrev pub view : Tables → Store
view db v j = find? (is_owned v j) db.todos

abbrev pub put : ℕ → ℕ → Option Todo → Store → Store
put u i o f v j = if i == j && u == v then o else f v j

abbrev pub Agrees : Store → Store → Type 0
Agrees f g = (v j : ℕ) → f v j ≡ g v j

-- What a call answers with.
pub data Answer : Type 0 where
  failed : Raised → Answer
  one : Todo → Answer
  page : TodoListResponse → Answer
  nothing : Answer

abbrev pub of_todo : Result Todo → Answer
of_todo (err e) = failed e
of_todo (ok t) = one t

abbrev pub of_page : Result TodoListResponse → Answer
of_page (err e) = failed e
of_page (ok r) = page r

abbrev pub of_unit : Result (Unit {0}) → Answer
of_unit (err e) = failed e
of_unit (ok done) = nothing

unfoldable pub answer : Postgres → ℕ → Operation → List (Option SqlError) → Tables → Answer
answer pg u (create_op ins payload) answers db = of_todo (run (create ins u payload) answers db).0
answer pg u (get_op id) answers db = of_todo (run (get u id) answers db).0
answer pg u (list_op query) answers db = of_page (run (list pg u query) answers db).0
answer pg u (update_op now at id payload) answers db =
    of_todo (run (update now at u id payload) answers db).0
answer pg u (delete_op id) answers db = of_unit (run (delete u id) answers db).0

-- The steps of the abstract store by a call of one user, with the call's answer: a call that fails and
-- a read leave the store as it is, and the others put or take one todo.
pub data Step (u : ℕ) : Operation → Store → Answer → Store → Type 0 where
  fails : {op : Operation} {f g : Store} (e : Raised) → Agrees g f → Step u op f (failed e) g
  reads :
      {id : ℕ} {f g : Store} (row : Todo)
      → f u id ≡ some row
      → Agrees g f
      → Step u (get_op id) f (one row) g
  lists :
      {query : TodoListQuery} {f g : Store} (r : TodoListResponse)
      → Agrees g f
      → Step u (list_op query) f (page r) g
  adds :
      {ins : Inserted} {payload : TodoCreate} {f g : Store} (t : Todo)
      → IsNew ins u payload t
      → Agrees g (put u ins.id (some t) f)
      → Step u (create_op ins payload) f (one t) g
  changes :
      {now at id : ℕ} {payload : TodoUpdate} {f g : Store} (row changed : Todo)
      → f u id ≡ some row
      → HasSentFields payload row changed
      → updated_row now payload row ≡ ok changed
      → Agrees g (put u id (some (record changed { updated_at = at })) f)
      → Step u (update_op now at id payload) f (one (record changed { updated_at = at })) g
  takes :
      {id : ℕ} {f g : Store} (row : Todo)
      → f u id ≡ some row
      → Agrees g (put u id none f)
      → Step u (delete_op id) f nothing g

pub answered :
    {A : Type 0} {u : ℕ} {op : Operation} {f g : Store} (of : Result A → Answer) {r r' : Result A}
    → r ≡ r'
    → Step u op f (of r') g
    → Step u op f (of r) g
answered {u} {op} {f} {g} of e step = subst (λ r. Step u op f (of r) g) (sym e) step
