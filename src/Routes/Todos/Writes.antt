-- ===== src/Routes/Todos/Writes.antt =====
-- Who may change todos through the routes, and whose.
use todo_api.Base.{ℕ, ◌≡◌, ap, ◌∙◌, sym, subst, arith, Option, List, inl, inr, nat_eq}
use todo_api.Exceptions.{SqlError}
use todo_api.Models.User.{User}
use todo_api.Results.{Result-cases}
use todo_api.Database.{Tables, Action, Session, run, ◌>>=◌, pure}
use todo_api.Config.{Settings}
use todo_api.Platform.{Platform}
use todo_api.Models.Todo.{Todo}
use todo_api.Repositories.Todo.{Postgres, Inserted}
use todo_api.Services.Todo.Update.{
  create_stores, update-Updated, delete-Deleted, create_error_stores_nothing,
  update_error_stores_nothing, delete_error_stores_nothing,
}
use todo_api.Services.Todo.{TodoCreate, TodoUpdate, create, update, delete}
use todo_api.Services.Todo.Requests.{create_op, update_op, delete_op, perform}
use todo_api.Services.Todo.Isolation.{HasUniqueIds, others, perform-others}
use todo_api.Routes.Guarded.{Call, writing_user}
use todo_api.Routes.Guarded.Admitted.{IsAdmitted, writing_user-cases}
use todo_api.Routes.Todos.{create_todo, update_todo, remove_todo, created, updated, removed}

pub data Write : Type 0 where
  creates : Inserted → TodoCreate → Write
  updates : ℕ → ℕ → ℕ → TodoUpdate → Write
  removes : ℕ → Write

-- The tables that the route of a write leaves.
unfoldable pub write : Platform → Settings → Call → Write → List (Option SqlError) → Tables → Tables
unfolding create_todo update_todo remove_todo
write p settings call (creates ins payload) answers db =
    (run (create_todo p settings call ins payload) answers db).1
write p settings call (updates now at id payload) answers db =
    (run (update_todo p settings call now at id payload) answers db).1
write p settings call (removes id) answers db = (run (remove_todo p settings call id) answers db).1

run-pure :
    {A B : Type 0} (m : Action A) (f : A → B) (answers : List (Option SqlError)) (db : Tables)
    → (run (m >>= λ a. pure (f a)) answers db).1 ≡ (run m answers db).1
run-pure m f answers db = elim (Result-cases (run m answers db).0) [
  | inl (a, done) ↦ ground arith
  | inr (e, failed) ↦ ground arith
]

-- Users, sessions, authorization codes and API keys are as before.
pub record KeepsOtherTables (db db' : Tables) : Type 0 where
  pub users : db'.users ≡ db.users
  pub refresh_sessions : db'.refresh_sessions ≡ db.refresh_sessions
  pub oauth_authorization_codes : db'.oauth_authorization_codes ≡ db.oauth_authorization_codes
  pub api_keys : db'.api_keys ≡ db.api_keys

todos-KeepsOtherTables :
    (db db' : Tables) (todos : List Todo)
    → db' ≡ record db { todos = todos }
    → KeepsOtherTables db db'
todos-KeepsOtherTables db db' todos e = record {
  users = ap (λ d. d.users) e;
  refresh_sessions = ap (λ d. d.refresh_sessions) e;
  oauth_authorization_codes = ap (λ d. d.oauth_authorization_codes) e;
  api_keys = ap (λ d. d.api_keys) e;
}

module _ (u : ℕ) (answers : List (Option SqlError)) (db : Tables) where
  create-KeepsOtherTables :
      (ins : Inserted) (payload : TodoCreate)
      → KeepsOtherTables db (run (create ins u payload) answers db).1
  create-KeepsOtherTables ins payload =
      elim (Result-cases (run (create ins u payload) answers db).0) [
        | inr (e, failed) ↦
            todos-KeepsOtherTables db _ db.todos
              (create_error_stores_nothing answers db ins u payload e failed)
        | inl (t, done) ↦
            todos-KeepsOtherTables db _ _ (create_stores answers db ins u payload t done).0
      ]

  update-KeepsOtherTables :
      (now at id : ℕ) (payload : TodoUpdate)
      → KeepsOtherTables db (run (update now at u id payload) answers db).1
  update-KeepsOtherTables now at id payload =
      elim (Result-cases (run (update now at u id payload) answers db).0) [
        | inr (e, failed) ↦
            todos-KeepsOtherTables db _ db.todos
              (update_error_stores_nothing answers db now at u id payload e failed)
        | inl (t, done) ↦
            todos-KeepsOtherTables db _ _
              (update-Updated answers db now at u id payload t done).stored
      ]

  delete-KeepsOtherTables : (id : ℕ) → KeepsOtherTables db (run (delete u id) answers db).1
  delete-KeepsOtherTables id = elim (Result-cases (run (delete u id) answers db).0) [
    | inr (e, failed) ↦
        todos-KeepsOtherTables db _ db.todos (delete_error_stores_nothing answers db u id e failed)
    | inl (unit, done) ↦ todos-KeepsOtherTables db _ _ (delete-Deleted answers db u id done).stored
  ]

-- The tables after a write: as before, or changed by an admitted user in that user's todos alone.
pub data IsWritten (p : Platform) (settings : Settings) (call : Call) (db db' : Tables)
    : Type 0 where
  unchanged : db' ≡ db → IsWritten p settings call db db'
  changed_by :
      (u : User)
      → IsAdmitted p settings call db u
      → others u.id db'.todos ≡ others u.id db.todos
      → KeepsOtherTables db db'
      → IsWritten p settings call db db'

module _ (p : Platform) (settings : Settings) (call : Call) (answers : List (Option SqlError))
    (db : Tables) where
  writing-IsWritten :
      {A : Type 0} (k : User → Action A)
      → ((u : User) (later : List (Option SqlError))
          → (others u.id (run (k u) later db).1.todos ≡ others u.id db.todos)
            × KeepsOtherTables db (run (k u) later db).1)
      → IsWritten p settings call db (run (writing_user p settings call >>= k) answers db).1
  writing-IsWritten k h =
      elim (writing_user-cases p settings call k
        (record { db = db; stored = db; answers = answers })) [
          | inl (stopped, same) ↦ unchanged same
          | inr (u, s', admitted, reads, keeps, is) ↦
              let fresh : Session = record { db = db; stored = db; answers = s'.answers } in
              let e : s' ≡ fresh = ground arith in
              let after = ap (λ out. out.1.stored) (is ∙ ap (k u) e) in
              changed_by u admitted (ap (λ d. others u.id d.todos) after ∙ (h u s'.answers).0)
                (subst (KeepsOtherTables db) (sym after) (h u s'.answers).1)
        ]

  served-IsWritten :
      {A B : Type 0} (m : User → Action A) (f : User → A → B)
      → ((u : User) (later : List (Option SqlError))
          → (others u.id (run (m u) later db).1.todos ≡ others u.id db.todos)
            × KeepsOtherTables db (run (m u) later db).1)
      → IsWritten p settings call db
          (run (writing_user p settings call >>= λ u. m u >>= λ a. pure (f u a)) answers db).1
  served-IsWritten m f h =
      writing-IsWritten (λ u. m u >>= λ a. pure (f u a))
        λ u later. (
          ap (λ (d : Tables). others u.id d.todos) (run-pure (m u) (f u) later db) ∙ (h u later).0,
          subst (KeepsOtherTables db) (sym (run-pure (m u) (f u) later db)) (h u later).1,
        )

  -- A request to the routes that create, change or remove a todo leaves the stored tables as they are,
  -- or it passed the check of its origin and the check for forged requests, its token is verified and
  -- that of an active and confirmed account, and afterwards only that account's todos differ: the
  -- others' todos are as before, in their order, and so are all the other tables. The identifiers of
  -- the todos are unique.
  pub write-IsWritten :
      (pg : Postgres) (w : Write)
      → HasUniqueIds db.todos
      → IsWritten p settings call db (write p settings call w answers db)
  unfolding write perform create_todo update_todo remove_todo
  write-IsWritten pg (creates ins payload) h =
      served-IsWritten (λ u. create ins u.id payload) created
        (λ u later. (
          perform-others pg u.id later db (create_op ins payload) h,
          create-KeepsOtherTables u.id later db ins payload,
        ))
  write-IsWritten pg (updates now at id payload) h =
      served-IsWritten (λ u. update now at u.id id payload) updated
        (λ u later. (
          perform-others pg u.id later db (update_op now at id payload) h,
          update-KeepsOtherTables u.id later db now at id payload,
        ))
  write-IsWritten pg (removes id) h =
      served-IsWritten (λ u. delete u.id id) (removed id)
        (λ u later. (
          perform-others pg u.id later db (delete_op id) h,
          delete-KeepsOtherTables u.id later db id,
        ))
