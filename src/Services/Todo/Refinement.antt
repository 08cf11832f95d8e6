-- ===== src/Services/Todo/Refinement.antt =====
-- The service against an abstract store: who may see which todo, whatever the order of the rows.
use todo_api.Base.{
  ℕ, ◌≡◌, ◌≢◌, refl, sym, subst, ap, ◌∙◌, arith, false, ◌&&◌, Option, none, some, List, [], ◌∷◌,
  ◌++◌, Bool-cases, inl, inr, ◌==◌, nat_eq, find?, update_where, delete_where, All, find?-meets,
  if◌then◌else◌,
}
use todo_api.Exceptions.{SqlError}
use todo_api.Models.Todo.{Todo}
use todo_api.Database.{Tables, run, ok}
use todo_api.Repositories.Todo.{Postgres, Inserted, is_owned}
use todo_api.Results.{Result-cases}
use todo_api.Services.Todo.{
  TodoCreate, TodoUpdate, TodoListQuery, create, update, delete, get, list,
}
use todo_api.Services.Todo.Requests.{
  Operation, create_op, get_op, list_op, update_op, delete_op, perform,
}
use todo_api.Services.Todo.Isolation.{HasUniqueIds, SharesOwner, found-SharesOwner}
use todo_api.Services.Todo.Update.{
  create-IsNew, get-found, updated_row-HasSentFields, updated_row_owner, update-Updated,
  delete-Deleted, create_stores, update_error_stores_nothing, create_error_stores_nothing,
  delete_error_stores_nothing,
}
use todo_api.Services.Todo.Store.{
  view, put, Agrees, of_todo, of_page, of_unit, answer, Step, fails, reads, lists, adds, changes,
  takes, answered,
}

module _ (v j : ℕ) where
  find-append :
      (t : Todo) (xs : List Todo)
      → All (λ r. r.id ≢ t.id) xs
      → find? (is_owned v j) (xs ++ t ∷ [])
        ≡ (if t.id == j && t.user_id == v then some t else find? (is_owned v j) xs)
  find-append t [] h = refl
  find-append t (x ∷ xs) h = ground (arith, find-append t xs h.1, h.0)

  -- A row that is not that of the place is as it was.
  find-save_other :
      (t : Todo) (xs : List Todo)
      → (t.id == j && t.user_id == v) ≡ false
      → SharesOwner t xs
      → find? (is_owned v j) (update_where (λ r. r.id == t.id) (λ _. t) xs)
        ≡ find? (is_owned v j) xs
  find-save_other t [] other s = refl
  find-save_other t (x ∷ xs) other s = ground (arith, find-save_other t xs other s.1, s.0)

  find-delete_other :
      (t : Todo) (xs : List Todo)
      → (t.id == j && t.user_id == v) ≡ false
      → SharesOwner t xs
      → find? (is_owned v j) (delete_where (λ r. r.id == t.id) xs) ≡ find? (is_owned v j) xs
  find-delete_other t [] other s = refl
  find-delete_other t (x ∷ xs) other s = ground (arith, find-delete_other t xs other s.1, s.0)

  find-delete_same :
      (t : Todo) (xs : List Todo)
      → t.id ≡ j
      → find? (is_owned v j) (delete_where (λ r. r.id == t.id) xs) ≡ none
  find-delete_same t [] same = refl
  find-delete_same t (x ∷ xs) same = ground (arith, find-delete_same t xs same)

  find-save_same :
      (t row : Todo) (xs : List Todo)
      → t.id ≡ j
      → t.user_id ≡ v
      → SharesOwner t xs
      → find? (is_owned v j) xs ≡ some row
      → find? (is_owned v j) (update_where (λ r. r.id == t.id) (λ _. t) xs) ≡ some t
  find-save_same t row [] same mine s found = absurd (ground arith)
  find-save_same t row (x ∷ xs) same mine s found =
      ground (arith, find-save_same t row xs same mine s.1, s.0)

module _ (v j : ℕ) where
  -- The save of a row and its deletion, at every place.
  view-save :
      (t row : Todo) (xs : List Todo)
      → SharesOwner t xs
      → find? (is_owned t.user_id t.id) xs ≡ some row
      → find? (is_owned v j) (update_where (λ r. r.id == t.id) (λ _. t) xs)
        ≡ (if t.id == j && t.user_id == v then some t else find? (is_owned v j) xs)
  view-save t row xs s found = elim (Bool-cases (t.id == j && t.user_id == v)) [
    | inr other ↦ find-save_other v j t xs other s ∙ rw other
    | inl here ↦
        let i : t.id ≡ j = ground arith in
        let o : t.user_id ≡ v = ground arith in
        find-save_same v j t row xs i o s (
          subst (λ (k : ℕ × ℕ). find? (is_owned k.0 k.1) xs ≡ some row)
            (let q : ◌≡◌ {A = ℕ × ℕ} (t.user_id, t.id) (v, j) = ground (arith, i, o) in q) found)
        ∙ rw here
  ]

  view-delete :
      (t : Todo) (xs : List Todo)
      → SharesOwner t xs
      → find? (is_owned v j) (delete_where (λ r. r.id == t.id) xs)
        ≡ (if t.id == j && t.user_id == v then none else find? (is_owned v j) xs)
  view-delete t xs s = elim (Bool-cases (t.id == j && t.user_id == v)) [
    | inr other ↦ find-delete_other v j t xs other s ∙ rw other
    | inl here ↦ find-delete_same v j t xs (ground arith) ∙ rw here
  ]

-- The sequence of the database gives identifiers that no row has.
abbrev pub IsFresh : Operation → Tables → Type 0
IsFresh (create_op ins payload) db = All (λ r. r.id ≢ ins.id) db.todos
IsFresh _ db = Unit

module _ (pg : Postgres) (u : ℕ) (answers : List (Option SqlError)) (db : Tables) where
  create-Step :
      (ins : Inserted) (payload : TodoCreate)
      → All (λ r. r.id ≢ ins.id) db.todos
      → Step u
          (create_op ins payload)
          (view db)
          (of_todo (run (create ins u payload) answers db).0)
          (view (run (create ins u payload) answers db).1)
  create-Step ins payload fresh = elim (Result-cases (run (create ins u payload) answers db).0) [
    | inr (e, broke) ↦ answered of_todo broke (
        fails e λ v j.
          ap (λ d. view d v j) (create_error_stores_nothing answers db ins u payload e broke))
    | inl (t, done) ↦
        let stored = (create_stores answers db ins u payload t done).0 in
        let is = create-IsNew answers db ins u payload t done in
        let fresh' : All (λ r. r.id ≢ t.id) db.todos =
          subst (λ i. All (λ r. r.id ≢ i) db.todos) (sym is.id) fresh in
        answered of_todo done (
          adds t is λ v j.
            ap (λ d. view d v j) stored
            ∙ find-append v j t db.todos fresh'
            ∙ (let q : ◌≡◌ {A = ℕ × ℕ} (t.id, t.user_id) (ins.id, u) =
                  ground (arith, is.id, is.owner) in
                ap (λ (k : ℕ × ℕ). put k.1 k.0 (some t) (view db) v j) q))
  ]

  get-Step :
      (id : ℕ)
      → Step u
          (get_op id)
          (view db)
          (of_todo (run (get u id) answers db).0)
          (view (run (get u id) answers db).1)
  get-Step id =
      let same : (run (get u id) answers db).1 ≡ db = unfold get in ground arith in
      let agrees : Agrees (view (run (get u id) answers db).1) (view db) =
        λ v j. ap (λ d. view d v j) same in
      elim (Result-cases (run (get u id) answers db).0) [
        | inr (e, broke) ↦ answered of_todo broke (fails e agrees)
        | inl (t, done) ↦ answered of_todo done (reads t (get-found answers db u id t done) agrees)
      ]

  list-Step :
      (query : TodoListQuery)
      → Step u
          (list_op query)
          (view db)
          (of_page (run (list pg u query) answers db).0)
          (view (run (list pg u query) answers db).1)
  list-Step query =
      let same : (run (list pg u query) answers db).1 ≡ db = unfold list in ground arith in
      let agrees : Agrees (view (run (list pg u query) answers db).1) (view db) =
        λ v j. ap (λ d. view d v j) same in
      elim (Result-cases (run (list pg u query) answers db).0) [
        | inr (e, broke) ↦ answered of_page broke (fails e agrees)
        | inl (r, done) ↦ answered of_page done (lists r agrees)
      ]

  update-Step :
      (now at id : ℕ) (payload : TodoUpdate)
      → HasUniqueIds db.todos
      → Step u
          (update_op now at id payload)
          (view db)
          (of_todo (run (update now at u id payload) answers db).0)
          (view (run (update now at u id payload) answers db).1)
  update-Step now at id payload h =
      elim (Result-cases (run (update now at u id payload) answers db).0) [
        | inr (e, broke) ↦ answered of_todo broke (
            fails e λ v j.
              ap (λ d. view d v j)
                (update_error_stores_nothing answers db now at u id payload e broke))
        | inl (t, done) ↦
            let w = update-Updated answers db now at u id payload t done in
            let (same, mine) = updated_row_owner now payload w.row w.changed w.change in
            let owned = find?-meets (is_owned u id) db.todos w.row w.found in
            let i : t.id ≡ id = ground (arith, w.stamped, same, owned) in
            let o : t.user_id ≡ u = ground (arith, w.stamped, mine, owned) in
            let row_place : ◌≡◌ {A = ℕ × ℕ} (w.row.user_id, w.row.id) (t.user_id, t.id) =
              ground (arith, i, o, owned) in
            let place : ◌≡◌ {A = ℕ × ℕ} (u, id) (t.user_id, t.id) = ground (arith, i, o) in
            let shares : SharesOwner t db.todos =
              subst (λ (k : ℕ × ℕ). All (λ r. r.id ≡ k.1 → r.user_id ≡ k.0) db.todos) row_place
                (found-SharesOwner (is_owned u id) db.todos w.row h w.found) in
            let found : find? (is_owned t.user_id t.id) db.todos ≡ some w.row =
              subst (λ (k : ℕ × ℕ). find? (is_owned k.0 k.1) db.todos ≡ some w.row) place w.found in
            answered of_todo (done ∙ ap ok w.stamped) (
              changes w.row w.changed w.found
                (updated_row-HasSentFields now payload w.row w.changed w.change) w.change
                λ v j.
                  ap (λ d. view d v j) w.stored
                  ∙ view-save v j t w.row db.todos shares found
                  ∙ ap (λ (k : ℕ × ℕ). put k.0 k.1 (some t) (view db) v j) (sym place)
                  ∙ ap (λ x. put u id (some x) (view db) v j) w.stamped)
      ]

  delete-Step :
      (id : ℕ)
      → HasUniqueIds db.todos
      → Step u
          (delete_op id)
          (view db)
          (of_unit (run (delete u id) answers db).0)
          (view (run (delete u id) answers db).1)
  delete-Step id h = elim (Result-cases (run (delete u id) answers db).0) [
    | inr (e, broke) ↦
        answered of_unit broke (
          fails e λ v j. ap (λ d. view d v j) (delete_error_stores_nothing answers db u id e broke))
    | inl (unit, done) ↦
        let w = delete-Deleted answers db u id done in
        let owned = find?-meets (is_owned u id) db.todos w.row w.found in
        let place : ◌≡◌ {A = ℕ × ℕ} (w.row.user_id, w.row.id) (u, id) = ground (arith, owned) in
        answered of_unit done (
          takes w.row w.found λ v j.
            ap (λ d. view d v j) w.stored
            ∙ view-delete v j w.row db.todos
                (found-SharesOwner (is_owned u id) db.todos w.row h w.found)
            ∙ ap (λ (k : ℕ × ℕ). put k.0 k.1 none (view db) v j) place)
  ]

  -- The service refines a store of todos by owner and identifier: whatever the rows' order and whichever
  -- call of the database fails, a call that answers with an error leaves the store as it is; a reading
  -- answers with the todo that the store has for its user and identifier; a creation puts, and answers
  -- with, a todo with the fields of the payload, open and new; an update puts, and answers with, that
  -- user's todo with the fields that were sent; a deletion takes that user's todo; and no other place
  -- of the store differs. A list leaves the store as it is. The table's identifiers are unique and the
  -- sequence gives a new one.
  pub perform-Step :
      (op : Operation)
      → HasUniqueIds db.todos
      → IsFresh op db
      → Step u op (view db) (answer pg u op answers db) (view (perform pg u op answers db))
  unfolding perform answer
  perform-Step (create_op ins payload) h fresh = create-Step ins payload fresh
  perform-Step (get_op id) h fresh = get-Step id
  perform-Step (list_op query) h fresh = list-Step query
  perform-Step (update_op now at id payload) h fresh = update-Step now at id payload h
  perform-Step (delete_op id) h fresh = delete-Step id h
