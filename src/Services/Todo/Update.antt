-- ===== src/Services/Todo/Update.antt =====
-- What `update` does with one row, and what a failed request leaves behind.
use todo_api.Base.{
  ℕ, ◌≡◌, arith, Option, some, none, false, List, inl, inr, ◌==◌, nat_eq, find?, or_else,
  Option-cases, delete_where, [], ◌∷◌, ◌++◌,
}
use todo_api.Exceptions.{Raised, SqlError}
use todo_api.Models.Todo.{Todo, HasCompletionState, status_eq, todo}
use todo_api.Database.{Tables, ok, err, run}
use todo_api.Repositories.Todo.{Inserted, is_owned, save_todo}
use todo_api.Results.{Result-cases}
use todo_api.Services.Todo.{TodoCreate, TodoUpdate, updated_row, create, get, update, delete}

-- The row keeps its identity, its owner and its creation time, has the fields that were sent, and
-- satisfies the check constraint.
pub record IsUpdate (payload : TodoUpdate) (row row' : Todo) : Type 0 where
  pub same_id : row'.id ≡ row.id
  pub same_owner : row'.user_id ≡ row.user_id
  pub same_creation : row'.created_at ≡ row.created_at
  pub title : row'.title ≡ or_else payload.title row.title
  pub description : row'.description ≡ or_else payload.description row.description
  pub priority : row'.priority ≡ or_else payload.priority row.priority
  pub due_at : row'.due_at ≡ or_else payload.due_at row.due_at
  pub status : row'.status ≡ or_else payload.status row.status
  pub archived : row'.is_archived ≡ or_else payload.is_archived row.is_archived
  pub consistent : HasCompletionState row'

pub updated_row-IsUpdate :
    (now : ℕ) (payload : TodoUpdate) (row row' : Todo)
    → HasCompletionState row
    → updated_row now payload row ≡ ok row'
    → IsUpdate payload row row'
unfolding updated_row
updated_row-IsUpdate now payload row row' h e = ground arith

-- Identity, owner and creation time are kept, the fields that were sent replace the row's, and no other
-- of these differs.
pub record HasSentFields (payload : TodoUpdate) (row row' : Todo) : Type 0 where
  pub same_id : row'.id ≡ row.id
  pub same_owner : row'.user_id ≡ row.user_id
  pub same_creation : row'.created_at ≡ row.created_at
  pub title : row'.title ≡ or_else payload.title row.title
  pub description : row'.description ≡ or_else payload.description row.description
  pub priority : row'.priority ≡ or_else payload.priority row.priority
  pub due_at : row'.due_at ≡ or_else payload.due_at row.due_at
  pub status : row'.status ≡ or_else payload.status row.status
  pub archived : row'.is_archived ≡ or_else payload.is_archived row.is_archived

pub updated_row-HasSentFields :
    (now : ℕ) (payload : TodoUpdate) (row row' : Todo)
    → updated_row now payload row ≡ ok row'
    → HasSentFields payload row row'
unfolding updated_row
updated_row-HasSentFields now payload row row' e = ground arith

pub updated_row_owner :
    (now : ℕ) (payload : TodoUpdate) (row row' : Todo)
    → updated_row now payload row ≡ ok row'
    → (row'.id ≡ row.id) × (row'.user_id ≡ row.user_id)
unfolding updated_row
updated_row_owner now payload row row' e = ground arith

module _ (answers : List (Option SqlError)) (db : Tables) where
  -- An `update` that raises has stored nothing, whichever call failed.
  pub update_error_stores_nothing :
      (now at user_id todo_id : ℕ) (payload : TodoUpdate) (e : Raised)
      → (run (update now at user_id todo_id payload) answers db).0 ≡ err e
      → (run (update now at user_id todo_id payload) answers db).1 ≡ db
  unfolding update
  update_error_stores_nothing now at user_id todo_id payload e h = ground arith

  pub create_error_stores_nothing :
      (ins : Inserted) (user_id : ℕ) (payload : TodoCreate) (e : Raised)
      → (run (create ins user_id payload) answers db).0 ≡ err e
      → (run (create ins user_id payload) answers db).1 ≡ db
  unfolding create
  create_error_stores_nothing ins user_id payload e h = ground arith

  pub delete_error_stores_nothing :
      (user_id todo_id : ℕ) (e : Raised)
      → (run (delete user_id todo_id) answers db).0 ≡ err e
      → (run (delete user_id todo_id) answers db).1 ≡ db
  unfolding delete
  delete_error_stores_nothing user_id todo_id e h = ground arith

module _ (answers : List (Option SqlError)) (db : Tables) where
  -- A successful `update`: the owned row that it found, that row changed, and the one write.
  pub record Updated (now at user_id todo_id : ℕ) (payload : TodoUpdate) (t : Todo) : Type 0 where
    pub row : Todo
    pub changed : Todo
    pub found : find? (is_owned user_id todo_id) db.todos ≡ some row
    pub change : updated_row now payload row ≡ ok changed
    pub stamped : t ≡ record changed { updated_at = at }
    pub stored : (run (update now at user_id todo_id payload) answers db).1 ≡ save_todo t db

  pub update-Updated :
      (now at user_id todo_id : ℕ) (payload : TodoUpdate) (t : Todo)
      → (run (update now at user_id todo_id payload) answers db).0 ≡ ok t
      → Updated now at user_id todo_id payload t
  unfolding update
  update-Updated now at user_id todo_id payload t h =
      elim (Option-cases (find? (is_owned user_id todo_id) db.todos)) [
        | inl missing ↦ absurd (ground arith)
        | inr (row, e) ↦ elim (Result-cases (updated_row now payload row)) [
          | inl (changed, e') ↦ record {
            row = row;
            changed = changed;
            found = e;
            change = e';
            stamped = ground arith;
            stored = ground arith;
          }
          | inr (x, e') ↦ absurd (ground arith)
        ]
      ]

  -- A successful `delete` found an owned row and removed the rows with its identifier.
  pub record Deleted (user_id todo_id : ℕ) : Type 0 where
    pub row : Todo
    pub found : find? (is_owned user_id todo_id) db.todos ≡ some row
    pub stored :
        (run (delete user_id todo_id) answers db).1
        ≡ record db { todos = delete_where (λ r. r.id == row.id) db.todos }

  pub delete-Deleted :
      (user_id todo_id : ℕ)
      → (run (delete user_id todo_id) answers db).0 ≡ ok tt
      → Deleted user_id todo_id
  unfolding delete
  delete-Deleted user_id todo_id h =
      elim (Option-cases (find? (is_owned user_id todo_id) db.todos)) [
        | inl missing ↦ absurd (ground arith)
        | inr (row, e) ↦ record { row = row; found = e; stored = ground arith }
      ]

  -- A successful `create` appended one row.
  pub create_stores :
      (ins : Inserted) (user_id : ℕ) (payload : TodoCreate) (t : Todo)
      → (run (create ins user_id payload) answers db).0 ≡ ok t
      → ((run (create ins user_id payload) answers db).1 ≡ record db { todos = db.todos ++ t ∷ [] })
        × (t.id ≡ ins.id)
        × (t.user_id ≡ user_id)
        × HasCompletionState t
  unfolding create
  create_stores ins user_id payload t h = (ground arith, ground arith, ground arith, ground arith)

-- The todo that a creation asks for: open, not archived, and the user's.
pub record IsNew (ins : Inserted) (user_id : ℕ) (payload : TodoCreate) (t : Todo) : Type 0 where
  pub id : t.id ≡ ins.id
  pub owner : t.user_id ≡ user_id
  pub title : t.title ≡ payload.title
  pub description : t.description ≡ payload.description
  pub priority : t.priority ≡ payload.priority
  pub due_at : t.due_at ≡ payload.due_at
  pub status : t.status ≡ todo
  pub completed_at : t.completed_at ≡ none
  pub is_archived : t.is_archived ≡ false
  pub created_at : t.created_at ≡ ins.now
  pub updated_at : t.updated_at ≡ ins.now

pub create-IsNew :
    (answers : List (Option SqlError)) (db : Tables) (ins : Inserted) (user_id : ℕ)
    (payload : TodoCreate) (t : Todo)
    → (run (create ins user_id payload) answers db).0 ≡ ok t
    → IsNew ins user_id payload t
unfolding create
create-IsNew answers db ins user_id payload t h = ground arith

-- A todo that `get` gives is the row of that owner and identifier.
pub get-found :
    (answers : List (Option SqlError)) (db : Tables) (user_id todo_id : ℕ) (t : Todo)
    → (run (get user_id todo_id) answers db).0 ≡ ok t
    → find? (is_owned user_id todo_id) db.todos ≡ some t
unfolding get
get-found answers db user_id todo_id t h =
    elim (Option-cases (find? (is_owned user_id todo_id) db.todos)) [
      | inl missing ↦ absurd (ground arith)
      | inr (row, e) ↦ ground arith
    ]
