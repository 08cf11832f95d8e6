-- ===== src/Services/Todo/Listing.antt =====
-- What a page of todos holds.
use todo_api.Base.{
  ℕ, String, ◌||◌, ◌≡◌, ◌≤◌, ◌-◌, refl, arith, Bool, true, false, ◌&&◌, Option, none, some, List,
  [], ◌∷◌, ◌++◌, min, length, take, drop, filter, All, All-take, All-drop, filter-meets, ◌==◌,
  nat_eq, leb→le, if◌then◌else◌, All-map, length-page,
}
use todo_api.Exceptions.{SqlError}
use todo_api.Models.Todo.{Todo, TodoStatus, TodoPriority, status_eq, priority_eq}
use todo_api.Database.{Tables, ok, run}
use todo_api.Repositories.Todo.{
  Postgres, filters, apply_ordering, meets_all, OrderTerm, holds_of, when_given, search_conditions,
}
use todo_api.Repositories.Todo.Like.{pattern_of}
use todo_api.Text.{is_empty}
use todo_api.Services.Todo.{TodoListQuery, TodoListResponse, filters_of, list}

-- What `ORDER BY` promises: a rearrangement keeps what holds of all rows, and their number.
pub record Rearranges (pg : Postgres) : Type 1 where
  pub keeps :
      (P : Todo → Type 0) (terms : List OrderTerm) (xs : List Todo)
      → All P xs
      → All P (pg.order_by terms xs)
  pub length-order_by :
      (terms : List OrderTerm) (xs : List Todo) → length (pg.order_by terms xs) ≡ length xs

-- A todo that a query may return.
pub record IsSelected (pg : Postgres) (user_id : ℕ) (query : TodoListQuery) (t : Todo)
    : Type 0 where
  pub owner : t.user_id ≡ user_id
  pub archived : t.is_archived ≡ query.is_archived
  pub search :
      (q : String)
      → query.q ≡ some q
      → is_empty q ≡ false
      → (pg.ilike t.title (pattern_of q) || holds_of (λ d. pg.ilike d (pattern_of q)) t.description)
        ≡ true
  pub status : (s : TodoStatus) → query.status ≡ some s → t.status ≡ s
  pub priority : (p : TodoPriority) → query.priority ≡ some p → t.priority ≡ p
  pub due_from : (d : ℕ) → query.due_from ≡ some d → (at : ℕ) × (t.due_at ≡ some at) × (d ≤ at)
  pub due_to : (d : ℕ) → query.due_to ≡ some d → (at : ℕ) × (t.due_at ≡ some at) × (at ≤ d)

&&-both : (a b : Bool) → (a && b) ≡ true → (a ≡ true) × (b ≡ true)
&&-both a b h = ground arith

meets-append :
    (cs ds : List (Todo → Bool)) (t : Todo)
    → meets_all (cs ++ ds) t ≡ true
    → (meets_all cs t ≡ true) × (meets_all ds t ≡ true)
meets-append [] ds t h = (refl, h)
meets-append (c ∷ cs) ds t h =
    let b = &&-both (c t) (meets_all (cs ++ ds) t) h in
    let r = meets-append cs ds t b.1 in (ground (arith, b.0, r.0), r.1)

meets-given :
    {A : Type 0} (o : Option A) (c : A → Todo → Bool) (t : Todo) (a : A)
    → meets_all (when_given o c) t ≡ true
    → o ≡ some a
    → c a t ≡ true
meets-given o c t a h e = (&&-both (c a t) true (rw e at h)).0

meets-search :
    (pg : Postgres) (o : Option String) (t : Todo) (q : String)
    → meets_all (search_conditions pg o) t ≡ true
    → o ≡ some q
    → is_empty q ≡ false
    → (pg.ilike t.title (pattern_of q) || holds_of (λ d. pg.ilike d (pattern_of q)) t.description)
      ≡ true
meets-search pg o t q h e ne = (&&-both _ true (rw (e, ne) at h)).0

holds_of-some :
    (p : ℕ → Bool) (o : Option ℕ) → holds_of p o ≡ true → (a : ℕ) × (o ≡ some a) × (p a ≡ true)
holds_of-some p none h = absurd (ground arith)
holds_of-some p (some a) h = (a, refl, h)

same_flag : (a b : Bool) → (if a then b else if b then false else true) ≡ true → b ≡ a
same_flag a b h = ground arith

meets_all-IsSelected :
    (pg : Postgres) (user_id : ℕ) (query : TodoListQuery) (t : Todo)
    → meets_all (filters pg (filters_of user_id query)) t ≡ true
    → IsSelected pg user_id query t
unfolding filters
meets_all-IsSelected pg user_id query t h =
    let h1 = &&-both (t.user_id == user_id) _ h in
    let h2 = &&-both _ _ h1.1 in
    let h3 = meets-append (search_conditions pg query.q) _ t h2.1 in
    let h4 = meets-append (when_given query.status _) _ t h3.1 in
    let h5 = meets-append (when_given query.priority _) _ t h4.1 in
    let h6 = meets-append (when_given query.due_from _) _ t h5.1 in
    record {
      owner = (nat_eq.beq_iff t.user_id user_id).0 h1.0;
      archived = same_flag query.is_archived t.is_archived h2.0;
      search = λ q. meets-search pg query.q t q h3.0;
      status = λ s e. (status_eq.beq_iff t.status s).0 (meets-given query.status _ t s h4.0 e);
      priority =
          λ p e. (priority_eq.beq_iff t.priority p).0 (meets-given query.priority _ t p h5.0 e);
      due_from = λ d e.
          let r = holds_of-some _ t.due_at (meets-given query.due_from _ t d h6.0 e) in
          (r.0, r.1, leb→le d r.0 r.2);
      due_to = λ d e.
          let r = holds_of-some _ t.due_at (meets-given query.due_to _ t d h6.1 e) in
          (r.0, r.1, leb→le r.0 d r.2);
    }

module _ (pg : Postgres) (answers : List (Option SqlError)) (db : Tables) (user_id : ℕ)
    (query : TodoListQuery) where
  abbrev selected : List Todo
  selected = filter (meets_all (filters pg (filters_of user_id query))) db.todos

  abbrev ordered : List Todo
  ordered = pg.order_by (apply_ordering query.sort_by query.sort_direction) selected

  list_response :
      (r : TodoListResponse)
      → (run (list pg user_id query) answers db).0 ≡ ok r
      → (r.items ≡ take query.limit (drop query.offset ordered)) × (r.total ≡ length selected)
  unfolding list
  list_response r h = (ground arith, ground arith)

  -- A page holds todos of its user that the query selects, and no others; it is as long as the
  -- limit, the offset and the total allow. The order of rows is PostgreSQL's, which rearranges them.
  pub list-page :
      (r : TodoListResponse)
      → Rearranges pg
      → (run (list pg user_id query) answers db).0 ≡ ok r
      → All (IsSelected pg user_id query) r.items
        × (length r.items ≡ min query.limit (r.total - query.offset))
  list-page r sorts h =
      let shape = list_response r h in
      let meets = filter-meets (meets_all (filters pg (filters_of user_id query))) db.todos in
      let good = All-map (meets_all-IsSelected pg user_id query) selected meets in
      let terms = apply_ordering query.sort_by query.sort_direction in
      let kept = sorts.keeps (IsSelected pg user_id query) terms selected good in
      (
        rw (shape.0) (
            All-take (IsSelected pg user_id query) query.limit (drop query.offset ordered)
              (All-drop (IsSelected pg user_id query) query.offset ordered kept)),
        rw (shape.0, shape.1, length-page, sorts.length-order_by),
      )
