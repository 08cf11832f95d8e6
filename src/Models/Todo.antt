-- ===== src/Models/Todo.antt =====
-- models/todo.py: a todo, its states and the methods that change them.
use todo_api.Base.{
  ℕ, String, ◌≡◌, ◌↔◌, arith, Bool, true, false, Option, none, some, Eq, is_some, if◌then◌else◌,
}

pub data TodoStatus : Type 0 where
  todo in_progress done cancelled : TodoStatus

pub data TodoPriority : Type 0 where
  low medium high urgent : TodoPriority

pub record Todo : Type 0 where
  pub id : ℕ
  pub user_id : ℕ
  pub title : String
  pub description : Option String
  pub status : TodoStatus
  pub priority : TodoPriority
  pub due_at : Option ℕ
  pub completed_at : Option ℕ
  pub is_archived : Bool
  pub created_at : ℕ
  pub updated_at : ℕ

abbrev pub status_beq : TodoStatus → TodoStatus → Bool
status_beq todo todo = true
status_beq in_progress in_progress = true
status_beq done done = true
status_beq cancelled cancelled = true
status_beq _ _ = false

abbrev pub priority_beq : TodoPriority → TodoPriority → Bool
priority_beq low low = true
priority_beq medium medium = true
priority_beq high high = true
priority_beq urgent urgent = true
priority_beq _ _ = false

pub status_beq_iff : (a b : TodoStatus) → (status_beq a b ≡ true) ↔ (a ≡ b)
status_beq_iff a b = ground arith

pub priority_beq_iff : (a b : TodoPriority) → (priority_beq a b ≡ true) ↔ (a ≡ b)
priority_beq_iff a b = ground arith

instance abbrev pub status_eq : Eq TodoStatus
status_eq = record { beq = status_beq; beq_iff = status_beq_iff }

instance abbrev pub priority_eq : Eq TodoPriority
priority_eq = record { beq = priority_beq; beq_iff = priority_beq_iff }

-- `Todo.complete`: `none` is its `ValueError`; `now` is `at or datetime.now(UTC)`.
unfoldable pub complete : ℕ → Todo → Option Todo
complete now t =
    if status_beq t.status cancelled
    then none
    else some (record t { status = done; completed_at = some now })

unfoldable pub reopen : Todo → Todo
reopen t = record t { status = todo; completed_at = none }

unfoldable pub cancel : Todo → Todo
cancel t = record t { status = cancelled; completed_at = none }

-- The check constraint `completion_state` of the table.
abbrev pub HasCompletionState : Todo → Type 0
HasCompletionState t = status_beq t.status done ≡ is_some t.completed_at
