-- ===== src/Services/Todo/Tests.antt =====
-- The theorems on todos at concrete requests.
use todo_api.Base.{◌≡◌, refl, arith, true, false, none, some, List, [], ◌∷◌, ◌-◌, min, length, All}
use todo_api.Exceptions
use todo_api.Exceptions.{SqlError, other_sql_error, app}
use todo_api.Exceptions.Todo.{todo_state_conflict, todo_service_unavailable, todo_not_found}
use todo_api.Models.Todo.{done, cancelled, low}
use todo_api.Database.{next_answer, later_answers, ok, err, run}
use todo_api.Repositories.Todo.{by_created_at, asc}
use todo_api.Samples.{plain_server, plain_server-Rearranges, milk, taxes, tables}
use todo_api.Services.Todo.{TodoUpdate, TodoListQuery, transition, update, list, updated_row}
use todo_api.Services.Todo.Transition.{allowed, Enters, transition-outcome}
use todo_api.Services.Todo.Requests.{Request, create_op, update_op, delete_op, perform, serve}
use todo_api.Services.Todo.Store.{Step, answer, view}
use todo_api.Services.Todo.Refinement.{perform-Step}
use todo_api.Services.Todo.Isolation.{others, perform-others}
use todo_api.Services.Todo.Integrity.{IsSound, serve-IsSound}
use todo_api.Services.Todo.Listing.{IsSelected, list-page}
use todo_api.Services.Todo.Update.{update_error_stores_nothing}

abbrev finish : TodoUpdate
finish = record {
  title = some "oat milk";
  description = none;
  status = some done;
  priority = none;
  due_at = some none;
  is_archived = none;
}

abbrev all_todos : TodoListQuery
all_todos = record {
  q = none;
  status = none;
  priority = none;
  is_archived = false;
  due_from = some 400;
  due_to = none;
  sort_by = by_created_at;
  sort_direction = asc;
  limit = 20;
  offset = 0;
}

completed_milk :
    (run (update 900 901 7 1 finish) [] tables).0
    ≡ ok (record milk {
      title = "oat milk";
      status = done;
      due_at = none;
      completed_at = some 900;
      updated_at = 901;
    })
unfolding update updated_row next_answer later_answers
completed_milk = refl

not_hers :
    (run (update 900 901 7 2 finish) [] tables).0 ≡ err (app (Exceptions.todo todo_not_found))
unfolding update next_answer
not_hers = refl

page :
    (run (list plain_server 7 all_todos) [] tables).0
    ≡ ok (record { items = milk ∷ []; total = 1; limit = 20; offset = 0 })
unfolding list next_answer later_answers
page = refl

transition-outcome_example :
    (allowed done cancelled ≡ true → Enters cancelled (transition 900 cancelled taxes))
    × (allowed done cancelled ≡ false
        → transition 900 cancelled taxes ≡ err (app (Exceptions.todo todo_state_conflict)))
transition-outcome_example = transition-outcome 900 cancelled taxes refl

perform-others_example :
    others 7 (perform plain_server 7 (update_op 900 901 1 finish) [] tables).todos
    ≡ others 7 tables.todos
perform-others_example =
    perform-others plain_server 7 [] tables (update_op 900 901 1 finish) (omega arith)

perform-Step_example :
    Step 7
      (update_op 900 901 1 finish)
      (view tables)
      (answer plain_server 7 (update_op 900 901 1 finish) [] tables)
      (view (perform plain_server 7 (update_op 900 901 1 finish) [] tables))
perform-Step_example =
    perform-Step plain_server 7 [] tables (update_op 900 901 1 finish) (omega arith) tt

abbrev history : List Request
history =
    record {
      user_id = 7;
      operation =
          create_op (record { id = 3; now = 800 })
            (record { title = "tea"; description = none; priority = low; due_at = none });
      answers = [];
    }
    ∷ record { user_id = 7; operation = update_op 900 901 1 finish; answers = none ∷ [] }
    ∷ record { user_id = 8; operation = delete_op 2; answers = none ∷ some other_sql_error ∷ [] }
    ∷ []

serve-IsSound_example : IsSound (serve plain_server history tables).todos
serve-IsSound_example =
    serve-IsSound plain_server history tables (ground arith)
      (record { completion = (refl, (refl, tt)); unique = ground arith })

list-page_example :
    All (IsSelected plain_server 7 all_todos) (milk ∷ []) × (length (milk ∷ []) ≡ min 20 (1 - 0))
list-page_example =
    list-page plain_server [] tables 7 all_todos
      (record { items = milk ∷ []; total = 1; limit = 20; offset = 0 }) plain_server-Rearranges page

lost_update :
    (run (update 900 901 7 1 finish) (none ∷ none ∷ none ∷ some other_sql_error ∷ []) tables).0
    ≡ err (app (Exceptions.todo todo_service_unavailable))
unfolding update updated_row next_answer later_answers
lost_update = refl

update_error_stores_nothing_example :
    (run (update 900 901 7 1 finish) (none ∷ none ∷ none ∷ some other_sql_error ∷ []) tables).1
    ≡ tables
update_error_stores_nothing_example =
    update_error_stores_nothing (none ∷ none ∷ none ∷ some other_sql_error ∷ []) tables 900 901 7 1
      finish (app (Exceptions.todo todo_service_unavailable)) lost_update
