-- ===== src/Repositories/Todo.antt =====
-- repositories/todo.py: the queries on the table of todos. `ILIKE` and `ORDER BY` are evaluated by
-- PostgreSQL, which is the parameter `Postgres`.
pub mod Like
use todo_api.Base.{
  ℕ, String, Bool, true, false, ◌&&◌, ◌||◌, ◌==◌, Option, none, some, List, [], ◌∷◌, ◌++◌, leb,
  nat_eq, if◌then◌else◌, filter, take, drop, find?, update_where, delete_where, count_where,
}
use todo_api.Text.{is_empty}
use todo_api.Models.Todo.{Todo, TodoStatus, TodoPriority, status_beq, priority_beq, todo, done}
use todo_api.Database.{Tables, Action, Result, ◌>>=◌, ◌>>◌, pure, gets, modify, call}
use Like.{pattern_of}

pub data TodoSortField : Type 0 where
  by_created_at by_updated_at by_due_at by_title : TodoSortField

pub data SortDirection : Type 0 where
  asc desc : SortDirection

-- A column of an `ORDER BY` clause.
pub data Column : Type 0 where
  created_at_column updated_at_column due_at_column title_column id_column : Column

pub record OrderTerm : Type 0 where
  pub column : Column
  pub direction : SortDirection
  pub nulls_last : Bool

-- What the server evaluates: `ilike text pattern` with `\` for its escape, and the order.
pub record Postgres : Type 0 where
  pub ilike : String → String → Bool
  pub order_by : List OrderTerm → List Todo → List Todo

-- The keyword arguments of `_filters`.
pub record Filters : Type 0 where
  pub user_id : ℕ
  pub search : Option String
  pub status : Option TodoStatus
  pub priority : Option TodoPriority
  pub is_archived : Bool
  pub due_from : Option ℕ
  pub due_to : Option ℕ

-- A comparison with a NULL column is not true, so it selects no row.
abbrev pub holds_of : {A : Type 0} → (A → Bool) → Option A → Bool
holds_of p none = false
holds_of p (some a) = p a

-- A condition that is left out when its argument is `None`.
abbrev pub when_given : {A : Type 0} → Option A → (A → Todo → Bool) → List (Todo → Bool)
when_given none c = []
when_given (some a) c = c a ∷ []

abbrev pub search_conditions : Postgres → Option String → List (Todo → Bool)
search_conditions pg none = []
search_conditions pg (some q) =
    if is_empty q
    then []
    else (λ t.
        pg.ilike t.title (pattern_of q) || holds_of (λ d. pg.ilike d (pattern_of q)) t.description)
      ∷ []

-- `_filters`
unfoldable pub filters : Postgres → Filters → List (Todo → Bool)
filters pg f =
    (λ t. t.user_id == f.user_id)
    ∷ (λ t. if f.is_archived then t.is_archived else if t.is_archived then false else true)
    ∷ (search_conditions pg f.search
        ++ (when_given f.status (λ s t. status_beq t.status s)
            ++ (when_given f.priority (λ p t. priority_beq t.priority p)
                ++ (when_given f.due_from (λ d t. holds_of (λ at. leb d at) t.due_at)
                    ++ when_given f.due_to (λ d t. holds_of (λ at. leb at d) t.due_at)))))

-- `where(*conditions)`
abbrev pub meets_all : List (Todo → Bool) → Todo → Bool
meets_all [] t = true
meets_all (c ∷ cs) t = c t && meets_all cs t

abbrev column_of : TodoSortField → Column
column_of by_created_at = created_at_column
column_of by_updated_at = updated_at_column
column_of by_due_at = due_at_column
column_of by_title = title_column

abbrev is_due_at : TodoSortField → Bool
is_due_at by_due_at = true
is_due_at _ = false

-- `_apply_ordering`
unfoldable pub apply_ordering : TodoSortField → SortDirection → List OrderTerm
apply_ordering sort_by direction =
    record { column = column_of sort_by; direction = direction; nulls_last = is_due_at sort_by }
    ∷ record { column = id_column; direction = direction; nulls_last = false }
    ∷ []

-- What the server fills in on an INSERT.
pub record Inserted : Type 0 where
  pub id : ℕ
  pub now : ℕ

unfoldable pub create_todo :
    Inserted → ℕ → String → Option String → TodoPriority → Option ℕ → Action Todo
create_todo ins user_id title description priority due_at =
    let row : Todo = record {
      id = ins.id;
      user_id = user_id;
      title = title;
      description = description;
      status = todo;
      priority = priority;
      due_at = due_at;
      completed_at = none;
      is_archived = false;
      created_at = ins.now;
      updated_at = ins.now;
    } in
    do modify (λ db. record db { todos = db.todos ++ row ∷ [] }); call; pure row

abbrev pub is_owned : ℕ → ℕ → Todo → Bool
is_owned user_id todo_id t = t.id == todo_id && t.user_id == user_id

-- The row lock of `for_update` orders whole requests, and changes no result of one.
unfoldable pub get_owned_todo : ℕ → ℕ → Action (Option Todo)
get_owned_todo user_id todo_id = do call; gets (λ db. find? (is_owned user_id todo_id) db.todos)

unfoldable pub list_owned_todos :
    Postgres → Filters → TodoSortField → SortDirection → ℕ → ℕ → Action (List Todo × ℕ)
unfolding filters apply_ordering
list_owned_todos pg f sort_by direction limit offset = do
  let conditions = filters pg f
  call
  items ← gets (λ db. take limit (
      drop offset
        (pg.order_by (apply_ordering sort_by direction) (filter (meets_all conditions) db.todos))))
  call
  total ← gets (λ db. count_where (meets_all conditions) db.todos)
  pure (items, total)

-- The UPDATE of one row, by its primary key.
abbrev pub save_todo : Todo → Tables → Tables
save_todo t db = record db { todos = update_where (λ r. r.id == t.id) (λ _. t) db.todos }

unfoldable pub delete_todo : Todo → Action (Unit {0})
delete_todo t = modify (λ db. record db { todos = delete_where (λ r. r.id == t.id) db.todos })

abbrev pub is_archivable : ℕ → Todo → Bool
is_archivable completed_before t =
    status_beq t.status done
    && (if t.is_archived then false else true)
    && holds_of (λ at. leb at completed_before) t.completed_at

-- The row count that the server reports is the number of rows that the condition selects.
unfoldable pub archive_completed_todos : ℕ → Action ℕ
archive_completed_todos completed_before = do
  call
  archived ← gets (λ db. count_where (is_archivable completed_before) db.todos)
  modify (λ db. record db {
    todos =
        update_where (is_archivable completed_before) (λ t. record t { is_archived = true })
          db.todos;
  })
  pure archived
