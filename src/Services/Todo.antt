-- ===== src/Services/Todo.antt =====
-- services/todo.py: the use cases on todos.
pub mod Transition
pub mod Requests
pub mod Update
pub mod Isolation
pub mod Integrity
pub mod Listing
pub mod Store
pub mod Refinement
pub mod Tests
use todo_api.Base.{
  ℕ, String, Bool, true, false, ◌&&◌, not, Option, none, some, is_none, or_else, List,
  if◌then◌else◌,
}
use todo_api.Exceptions.{app}
use todo_api.Exceptions
use todo_api.Exceptions.Todo.{todo_not_found, todo_state_conflict, todo_service_unavailable}
use todo_api.Models.Todo.{
  Todo, TodoStatus, TodoPriority, status_beq, todo, in_progress, done, cancelled, complete, reopen,
  cancel,
}
use todo_api.Database.{
  Tables, Action, Result, ok, err, ◌>>=◌, ◌>>◌, pure, raise, modify, call, commit, lift, except_sql,
}
use todo_api.Repositories.Todo.{
  Postgres, Filters, TodoSortField, SortDirection, Inserted, create_todo, get_owned_todo,
  list_owned_todos, save_todo, delete_todo,
}

-- `TodoCreateSchema`, after its validation.
pub record TodoCreate : Type 0 where
  pub title : String
  pub description : Option String
  pub priority : TodoPriority
  pub due_at : Option ℕ

-- `payload.model_dump(exclude_unset=True)` of a `TodoUpdateSchema`: a field that was not sent is
-- `none`. Its validators admit null for the description and the due date alone.
pub record TodoUpdate : Type 0 where
  pub title : Option String
  pub description : Option (Option String)
  pub status : Option TodoStatus
  pub priority : Option TodoPriority
  pub due_at : Option (Option ℕ)
  pub is_archived : Option Bool

pub record TodoListQuery : Type 0 where
  pub q : Option String
  pub status : Option TodoStatus
  pub priority : Option TodoPriority
  pub is_archived : Bool
  pub due_from : Option ℕ
  pub due_to : Option ℕ
  pub sort_by : TodoSortField
  pub sort_direction : SortDirection
  pub limit : ℕ
  pub offset : ℕ

pub record TodoListResponse : Type 0 where
  pub items : List Todo
  pub total : ℕ
  pub limit : ℕ
  pub offset : ℕ

abbrev conflict : Result Todo
conflict = err (app (Exceptions.todo todo_state_conflict))

abbrev or_conflict : Option Todo → Result Todo
or_conflict none = conflict
or_conflict (some t) = ok t

-- The `match` of `_transition`.
enter : ℕ → TodoStatus → Todo → Result Todo
unfolding complete reopen cancel
enter now todo t = ok (reopen t)
enter now in_progress t = ok (record t { status = in_progress; completed_at = none })
enter now done t = or_conflict (complete now t)
enter now cancelled t = ok (cancel t)

-- `_transition`; `now` is the time that `complete` reads.
pub transition : ℕ → TodoStatus → Todo → Result Todo
unfolding enter
transition now target t =
    if status_beq target t.status
    then ok t
    else if status_beq t.status cancelled && not (status_beq target todo)
    then conflict
    else if status_beq t.status done && status_beq target cancelled
    then conflict
    else enter now target t

-- `for field, value in changes.items(): setattr(todo, field, value)`, the status taken out.
apply_changes : TodoUpdate → Todo → Todo
apply_changes p t = record t {
  title = or_else p.title t.title;
  description = or_else p.description t.description;
  priority = or_else p.priority t.priority;
  due_at = or_else p.due_at t.due_at;
  is_archived = or_else p.is_archived t.is_archived;
}

abbrev transition_if_given : ℕ → Option TodoStatus → Todo → Result Todo
transition_if_given now none t = ok t
transition_if_given now (some target) t = transition now target t

-- The changes and the transition of `update`, on the row that it found.
pub updated_row : ℕ → TodoUpdate → Todo → Result Todo
unfolding apply_changes transition
updated_row now payload row = transition_if_given now payload.status (apply_changes payload row)

abbrev required : Option Todo → Action Todo
required none = raise (Exceptions.todo todo_not_found)
required (some t) = pure t

abbrev unavailable : Exceptions.ApplicationError
unavailable = Exceptions.todo todo_service_unavailable

pub create : Inserted → ℕ → TodoCreate → Action Todo
unfolding create_todo
create ins user_id payload =
    except_sql
      (do
        row ←
            create_todo ins user_id payload.title payload.description payload.priority
              payload.due_at
        commit
        pure row)
      unavailable

pub get : ℕ → ℕ → Action Todo
unfolding get_owned_todo
get user_id todo_id = do
  found ← except_sql (get_owned_todo user_id todo_id) unavailable
  required found

-- The arguments that `list` hands to `list_owned_todos`.
abbrev pub filters_of : ℕ → TodoListQuery → Filters
filters_of user_id query = record {
  user_id = user_id;
  search = query.q;
  status = query.status;
  priority = query.priority;
  is_archived = query.is_archived;
  due_from = query.due_from;
  due_to = query.due_to;
}

pub list : Postgres → ℕ → TodoListQuery → Action TodoListResponse
unfolding list_owned_todos
list pg user_id query = do
  page ←
      except_sql
        (list_owned_todos pg (filters_of user_id query) query.sort_by query.sort_direction
          query.limit query.offset)
        unavailable
  pure (record { items = page.0; total = page.1; limit = query.limit; offset = query.offset })

-- `now` is read if a todo is completed; `updated_at` is the time that the refresh reads back: what the
-- server sets at the flush or, where no column differs and there is no UPDATE, the row's own.
pub update : ℕ → ℕ → ℕ → ℕ → TodoUpdate → Action Todo
unfolding get_owned_todo
update now updated_at user_id todo_id payload =
    except_sql
      (do
        found ← get_owned_todo user_id todo_id
        row ← required found
        changed ← lift (updated_row now payload row)
        call
        let flushed : Todo = record changed { updated_at = updated_at }
        modify (save_todo flushed)
        call
        commit
        pure flushed)
      unavailable

pub delete : ℕ → ℕ → Action (Unit {0})
unfolding get_owned_todo delete_todo
delete user_id todo_id =
    except_sql
      (do found ← get_owned_todo user_id todo_id; row ← required found; delete_todo row; commit)
      unavailable
