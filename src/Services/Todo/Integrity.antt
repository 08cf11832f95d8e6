-- ===== src/Services/Todo/Integrity.antt =====
-- The check constraint and the primary key of the table of todos survive every history of calls.
use todo_api.Base.{
  ℕ, ◌≢◌, sym, subst, arith, Bool, Option, List, [], ◌∷◌, ◌++◌, Bool-cases, inl, inr, ◌==◌, nat_eq,
  filter, update_where, All, All-append, All-filter, All-update_where, find?-All,
}
use todo_api.Exceptions.{SqlError}
use todo_api.Models.Todo.{Todo, HasCompletionState}
use todo_api.Database.{Tables, run}
use todo_api.Repositories.Todo.{Postgres, Inserted, is_owned}
use todo_api.Services.Todo.{TodoCreate, TodoUpdate, create, update, delete, get, list}
use todo_api.Services.Todo.Requests.{
  Operation, Request, create_op, get_op, list_op, update_op, delete_op, perform, serve,
}
use todo_api.Services.Todo.Isolation.{HasUniqueIds}
use todo_api.Results.{Result-cases}
use todo_api.Services.Todo.Update.{
  updated_row-IsUpdate, update-Updated, delete-Deleted, create_stores, update_error_stores_nothing,
  create_error_stores_nothing, delete_error_stores_nothing,
}

-- What the schema of the table demands of its rows.
pub record IsSound (todos : List Todo) : Type 0 where
  pub completion : All HasCompletionState todos
  pub unique : HasUniqueIds todos

-- The sequence behind the primary key gives an identifier that no row has.
abbrev pub HasFreshId : Operation → Tables → Type 0
HasFreshId (create_op ins payload) db = All (λ r. r.id ≢ ins.id) db.todos
HasFreshId _ db = Unit

abbrev pub HaveFreshIds : Postgres → List Request → Tables → Type 0
HaveFreshIds pg [] db = Unit
HaveFreshIds pg (r ∷ rs) db =
    HasFreshId r.operation db × HaveFreshIds pg rs (perform pg r.user_id r.operation r.answers db)

HasUniqueIds-filter :
    (p : Todo → Bool) (xs : List Todo) → HasUniqueIds xs → HasUniqueIds (filter p xs)
HasUniqueIds-filter p [] h = tt
HasUniqueIds-filter p (x ∷ xs) h = elim (Bool-cases (p x)) [
  | inl hit ↦ rw hit (All-filter (λ r. r.id ≢ x.id) p xs h.0, HasUniqueIds-filter p xs h.1)
  | inr miss ↦ rw miss (HasUniqueIds-filter p xs h.1)
]

HasUniqueIds-append :
    (t : Todo) (xs : List Todo)
    → HasUniqueIds xs
    → All (λ r. r.id ≢ t.id) xs
    → HasUniqueIds (xs ++ t ∷ [])
HasUniqueIds-append t [] h fresh = (tt, tt)
HasUniqueIds-append t (x ∷ xs) h fresh = (
  All-append (λ r. r.id ≢ x.id) xs (t ∷ []) h.0 ((λ e. fresh.0 (sym e)), tt),
  HasUniqueIds-append t xs h.1 fresh.1,
)

HasUniqueIds-save :
    (t : Todo) (xs : List Todo)
    → HasUniqueIds xs
    → HasUniqueIds (update_where (λ r. r.id == t.id) (λ _. t) xs)
HasUniqueIds-save t [] h = tt
HasUniqueIds-save t (x ∷ xs) h =
    let kept : (k : ℕ)
        → All (λ r. r.id ≢ k) xs
        → All (λ r. r.id ≢ k) (update_where (λ r. r.id == t.id) (λ _. t) xs) =
      λ k.
        All-update_where (λ r. r.id ≢ k) (λ r. r.id == t.id) (λ _. t) xs (λ r ne e. ground arith) in
    elim (Bool-cases (x.id == t.id)) [
      | inl hit ↦ rw hit (
        kept t.id (subst (λ k. All (λ r. r.id ≢ k) xs) (ground arith) h.0),
        HasUniqueIds-save t xs h.1,
      )
      | inr miss ↦ rw miss (kept x.id h.0, HasUniqueIds-save t xs h.1)
    ]

module _ (pg : Postgres) (u : ℕ) (answers : List (Option SqlError)) (db : Tables) where
  update-IsSound :
      (now at id : ℕ) (payload : TodoUpdate)
      → IsSound db.todos
      → IsSound (run (update now at u id payload) answers db).1.todos
  update-IsSound now at id payload h =
      elim (Result-cases (run (update now at u id payload) answers db).0) [
        | inr (e, failed) ↦
            rw (update_error_stores_nothing answers db now at u id payload e failed) h
        | inl (t, done) ↦
            let w = update-Updated answers db now at u id payload t done in
            let row =
              find?-All HasCompletionState (is_owned u id) db.todos w.row h.completion w.found in
            let facts = updated_row-IsUpdate now payload w.row w.changed row w.change in
            rw w.stored (record {
              completion =
                  All-update_where HasCompletionState (λ r. r.id == t.id) (λ _. t) db.todos
                    (λ r _ _. ground (arith, w.stamped, facts.consistent)) h.completion;
              unique = HasUniqueIds-save t db.todos h.unique;
            })
      ]

  delete-IsSound : (id : ℕ) → IsSound db.todos → IsSound (run (delete u id) answers db).1.todos
  delete-IsSound id h = elim (Result-cases (run (delete u id) answers db).0) [
    | inr (e, failed) ↦ rw (delete_error_stores_nothing answers db u id e failed) h
    | inl (unit, done) ↦
        let w = delete-Deleted answers db u id done in
        rw w.stored (record {
          completion = All-filter HasCompletionState _ db.todos h.completion;
          unique = HasUniqueIds-filter _ db.todos h.unique;
        })
  ]

  create-IsSound :
      (ins : Inserted) (payload : TodoCreate)
      → All (λ r. r.id ≢ ins.id) db.todos
      → IsSound db.todos
      → IsSound (run (create ins u payload) answers db).1.todos
  create-IsSound ins payload fresh h =
      elim (Result-cases (run (create ins u payload) answers db).0) [
        | inr (e, failed) ↦ rw (create_error_stores_nothing answers db ins u payload e failed) h
        | inl (t, done) ↦
            let w = create_stores answers db ins u payload t done in
            rw w.0 (record {
              completion = All-append HasCompletionState db.todos (t ∷ []) h.completion (w.3, tt);
              unique =
                  HasUniqueIds-append t db.todos h.unique
                    (subst (λ k. All (λ r. r.id ≢ k) db.todos) (sym w.1) fresh);
            })
      ]

  perform-IsSound :
      (op : Operation)
      → HasFreshId op db
      → IsSound db.todos
      → IsSound (perform pg u op answers db).todos
  unfolding perform
  perform-IsSound (create_op ins payload) fresh h = create-IsSound ins payload fresh h
  perform-IsSound (get_op id) fresh h = unfold get in ground arith
  perform-IsSound (list_op query) fresh h = unfold list in ground arith
  perform-IsSound (update_op now at id payload) fresh h = update-IsSound now at id payload h
  perform-IsSound (delete_op id) fresh h = delete-IsSound id h

-- Every history of calls by any users, with whatever database failures, keeps the table of todos
-- within its check constraint (a todo has a completion time exactly if it is done) and its primary
-- key, where the server gives each new row an identifier that no row has.
pub serve-IsSound :
    (pg : Postgres) (requests : List Request) (db : Tables)
    → HaveFreshIds pg requests db
    → IsSound db.todos
    → IsSound (serve pg requests db).todos
unfolding serve
serve-IsSound pg [] db fresh h = h
serve-IsSound pg (r ∷ rs) db fresh h =
    serve-IsSound pg rs (perform pg r.user_id r.operation r.answers db) fresh.1
      (perform-IsSound pg r.user_id r.answers db r.operation fresh.0 h)
