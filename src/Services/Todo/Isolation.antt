-- ===== src/Services/Todo/Isolation.antt =====
-- No request of one user changes another user's todos.
use todo_api.Base.{
  ℕ, ◌≡◌, ◌≢◌, refl, sym, subst, ap, ◌∙◌, arith, Bool, not, Option, some, List, [], ◌∷◌, ◌++◌,
  Bool-cases, inl, inr, ◌==◌, nat_eq, find?, filter, update_where, delete_where, All, find?-All,
  find?-meets,
}
use todo_api.Exceptions.{SqlError}
use todo_api.Models.Todo.{Todo}
use todo_api.Database.{Tables, run}
use todo_api.Repositories.Todo.{Postgres, Inserted, is_owned}
use todo_api.Services.Todo.{TodoCreate, TodoUpdate, create, update, delete, get, list}
use todo_api.Services.Todo.Requests.{
  Operation, create_op, get_op, list_op, update_op, delete_op, perform,
}
use todo_api.Results.{Result-cases}
use todo_api.Services.Todo.Update.{
  updated_row_owner, update-Updated, delete-Deleted, create_stores, update_error_stores_nothing,
  create_error_stores_nothing, delete_error_stores_nothing,
}

-- The primary key of the table.
abbrev pub HasUniqueIds : List Todo → Type 0
HasUniqueIds [] = Unit
HasUniqueIds (x ∷ xs) = All (λ r. r.id ≢ x.id) xs × HasUniqueIds xs

-- The todos of all users but one, in the table's order.
abbrev pub others : ℕ → List Todo → List Todo
others u = filter (λ t. not (t.user_id == u))

abbrev pub SharesOwner : Todo → List Todo → Type 0
SharesOwner t = All (λ r. r.id ≡ t.id → r.user_id ≡ t.user_id)

distinct-SharesOwner : (x : Todo) (xs : List Todo) → All (λ r. r.id ≢ x.id) xs → SharesOwner x xs
distinct-SharesOwner x [] h = tt
distinct-SharesOwner x (y ∷ ys) h = ((λ e. absurd (h.0 e)), distinct-SharesOwner x ys h.1)

pub found-SharesOwner :
    (p : Todo → Bool) (xs : List Todo) (t : Todo)
    → HasUniqueIds xs
    → find? p xs ≡ some t
    → SharesOwner t xs
found-SharesOwner p [] t u e = tt
found-SharesOwner p (x ∷ xs) t u e = elim (Bool-cases (p x)) [
  | inl hit ↦
      let i : x ≡ t = ground arith in
      subst (λ y. SharesOwner y (x ∷ xs)) i ((λ _. refl), distinct-SharesOwner x xs u.0)
  | inr miss ↦
      let e' : find? p xs ≡ some t = rw miss at e in
      (
        (λ q. absurd (find?-All (λ r. r.id ≢ x.id) p xs t u.0 e' (sym q))),
        found-SharesOwner p xs t u.1 e',
      )
]

others-save :
    (u : ℕ) (t : Todo) (xs : List Todo)
    → t.user_id ≡ u
    → SharesOwner t xs
    → others u (update_where (λ r. r.id == t.id) (λ _. t) xs) ≡ others u xs
others-save u t [] h s = refl
others-save u t (x ∷ xs) h s = ground (arith, others-save u t xs h s.1, s.0)

others-delete :
    (u : ℕ) (t : Todo) (xs : List Todo)
    → t.user_id ≡ u
    → SharesOwner t xs
    → others u (delete_where (λ r. r.id == t.id) xs) ≡ others u xs
others-delete u t [] h s = refl
others-delete u t (x ∷ xs) h s = ground (arith, others-delete u t xs h s.1, s.0)

others-append :
    (u : ℕ) (t : Todo) (xs : List Todo) → t.user_id ≡ u → others u (xs ++ t ∷ []) ≡ others u xs
others-append u t [] h = ground arith
others-append u t (x ∷ xs) h = ground (arith, others-append u t xs h)

module _ (pg : Postgres) (u : ℕ) (answers : List (Option SqlError)) (db : Tables) where
  update-others :
      (now at id : ℕ) (payload : TodoUpdate)
      → HasUniqueIds db.todos
      → others u (run (update now at u id payload) answers db).1.todos ≡ others u db.todos
  update-others now at id payload h =
      elim (Result-cases (run (update now at u id payload) answers db).0) [
        | inr (e, failed) ↦
            ap (λ (d : Tables). others u d.todos)
              (update_error_stores_nothing answers db now at u id payload e failed)
        | inl (t, done) ↦
            let w = update-Updated answers db now at u id payload t done in
            let shares = found-SharesOwner (is_owned u id) db.todos w.row h w.found in
            let same = updated_row_owner now payload w.row w.changed w.change in
            let mine : w.row.user_id ≡ u =
              ground (arith, find?-meets (is_owned u id) db.todos w.row w.found) in
            let shares' : SharesOwner t db.todos =
              subst (λ (k : ℕ × ℕ). All (λ r. r.id ≡ k.0 → r.user_id ≡ k.1) db.todos)
                (let q : ◌≡◌ {A = ℕ × ℕ} (w.row.id, w.row.user_id) (t.id, t.user_id) =
                    ground (arith, w.stamped, same) in
                  q)
                shares in
            ap (λ (d : Tables). others u d.todos) w.stored
            ∙ others-save u t db.todos (ground (arith, w.stamped, same, mine)) shares'
      ]

  delete-others :
      (id : ℕ)
      → HasUniqueIds db.todos
      → others u (run (delete u id) answers db).1.todos ≡ others u db.todos
  delete-others id h = elim (Result-cases (run (delete u id) answers db).0) [
    | inr (e, failed) ↦
        ap (λ (d : Tables). others u d.todos) (delete_error_stores_nothing answers db u id e failed)
    | inl (unit, done) ↦
        let w = delete-Deleted answers db u id done in
        ap (λ (d : Tables). others u d.todos) w.stored
        ∙ others-delete u w.row db.todos
            (ground (arith, find?-meets (is_owned u id) db.todos w.row w.found))
            (found-SharesOwner (is_owned u id) db.todos w.row h w.found)
  ]

  create-others :
      (ins : Inserted) (payload : TodoCreate)
      → others u (run (create ins u payload) answers db).1.todos ≡ others u db.todos
  create-others ins payload = elim (Result-cases (run (create ins u payload) answers db).0) [
    | inr (e, failed) ↦
        ap (λ (d : Tables). others u d.todos)
          (create_error_stores_nothing answers db ins u payload e failed)
    | inl (t, done) ↦
        let w = create_stores answers db ins u payload t done in
        ap (λ (d : Tables). others u d.todos) w.0 ∙ others-append u t db.todos w.2
  ]

  -- Whatever one user calls, and whichever database call fails, the todos of all other users are
  -- the same, and in the same order, as before, where the identifiers of the table are unique.
  pub perform-others :
      (op : Operation)
      → HasUniqueIds db.todos
      → others u (perform pg u op answers db).todos ≡ others u db.todos
  unfolding perform
  perform-others (create_op ins payload) h = create-others ins payload
  perform-others (get_op id) h = unfold get in ground arith
  perform-others (list_op query) h = unfold list in ground arith
  perform-others (update_op now at id payload) h = update-others now at id payload h
  perform-others (delete_op id) h = delete-others id h
