-- ===== src/Schemas.antt =====
-- schemas/todo.py: what the validators make of a request's
-- fields. The types of the fields are checked by pydantic; `none` stands for a `ValidationError`.
pub mod Stable
use Prim.Native.String.{count}
use todo_api.Base.{
  ℕ, String, Bool, true, false, not, ◌&&◌, ◌||◌, ◌==◌, nat_eq, leb, ltb, Option, none, some,
  is_some, if◌then◌else◌,
}
use todo_api.Text.{strip, is_empty, is_space}
use todo_api.Models.Todo.{TodoStatus, TodoPriority}
use todo_api.Services.Todo.{TodoCreate, TodoUpdate, TodoListQuery}

infixl 5 ◌>>=◌ ◌>>◌
abbrev pub ◌>>=◌ : {A B : Type 0} → Option A → (A → Option B) → Option B
none >>= f = none
some a >>= f = f a

abbrev pub ◌>>◌ : {A B : Type 0} → Option A → Option B → Option B
m >> k = m >>= λ _. k

abbrev pub check : Bool → Option (Unit {0})
check true = some tt
check false = none

abbrev pub fits : ℕ → ℕ → String → Bool
fits least most s = leb least (count s) && leb (count s) most

-- `_normalize_title`
unfoldable pub normalize_title : String → Option String
normalize_title value = if is_empty (strip value) then none else some (strip value)

-- `_normalize_description`
abbrev pub or_none : String → Option String
or_none s = if is_empty s then none else some s

unfoldable pub normalize_description : Option String → Option String
normalize_description none = none
normalize_description (some value) = or_none (strip value)

abbrev pub fits_optional : ℕ → Option String → Bool
fits_optional most none = true
fits_optional most (some s) = leb (count s) most

-- `TodoCreateSchema`, over the fields as they were sent, with the defaults for those that were not.
unfoldable pub validate_create : TodoCreate → Option TodoCreate
unfolding normalize_title normalize_description
validate_create sent = do
  check (fits 1 200 sent.title)
  check (fits_optional 5000 sent.description)
  title ← normalize_title sent.title
  some (record sent { title = title; description = normalize_description sent.description })

-- A field of `TodoUpdateSchema` that must not be null: not sent, null, or a value.
abbrev pub not_null : {A : Type 0} → Option (Option A) → Option (Option A)
not_null none = some none
not_null (some none) = none
not_null (some (some a)) = some (some a)

pub record TodoUpdateForm : Type 0 where
  pub title : Option (Option String)
  pub description : Option (Option String)
  pub status : Option (Option TodoStatus)
  pub priority : Option (Option TodoPriority)
  pub due_at : Option (Option ℕ)
  pub is_archived : Option (Option Bool)

-- `validate_title`
abbrev pub updated_title : Option (Option String) → Option (Option String)
updated_title none = some none
updated_title (some none) = none
updated_title (some (some s)) =
    if fits 1 200 s then elim (normalize_title s) [ none ↦ none | some t ↦ some (some t) ] else none

abbrev pub updated_description : Option (Option String) → Option (Option (Option String))
updated_description none = some none
updated_description (some d) =
    if fits_optional 5000 d then some (some (normalize_description d)) else none

abbrev pub is_given : TodoUpdateForm → Bool
is_given form =
    is_some form.title
    || is_some form.description
    || is_some form.status
    || is_some form.priority
    || is_some form.due_at
    || is_some form.is_archived

-- `TodoUpdateSchema` with `reject_null_non_nullable_fields` and `require_at_least_one_field`.
unfoldable pub validate_update : TodoUpdateForm → Option TodoUpdate
validate_update form = do
  title ← updated_title form.title
  description ← updated_description form.description
  status ← not_null form.status
  priority ← not_null form.priority
  is_archived ← not_null form.is_archived
  check (is_given form)
  some (record {
    title = title;
    description = description;
    status = status;
    priority = priority;
    due_at = form.due_at;
    is_archived = is_archived;
  })

-- `normalize_search`
abbrev pub normalize_search : Option String → Option (Option String)
normalize_search none = some none
normalize_search (some s) =
    if fits 1 100 s && not (is_empty (strip s)) then some (some (strip s)) else none

-- `validate_due_range`; every date is truthy.
abbrev pub in_order : Option ℕ → Option ℕ → Bool
in_order (some a) (some b) = leb a b
in_order _ _ = true

-- `TodoListQuerySchema`
unfoldable pub validate_query : TodoListQuery → Option TodoListQuery
validate_query sent = do
  q ← normalize_search sent.q
  check (leb 1 sent.limit && leb sent.limit 100)
  check (in_order sent.due_from sent.due_to)
  some (record sent { q = q })
