-- ===== src/Services/Todo/Transition.antt =====
-- The state machine of a todo's status.
use todo_api.Base.{ℕ, ◌≡◌, arith, Bool, true, false}
use todo_api.Exceptions
use todo_api.Exceptions.{app}
use todo_api.Exceptions.Todo.{todo_state_conflict}
use todo_api.Models.Todo.{Todo, TodoStatus, todo, in_progress, done, cancelled, HasCompletionState}
use todo_api.Database.{Result, ok, err}
use todo_api.Services.Todo.{transition}

-- The moves that the API documents: a cancelled todo can only be reopened, and a done one cannot
-- be cancelled.
abbrev pub allowed : TodoStatus → TodoStatus → Bool
allowed cancelled in_progress = false
allowed cancelled done = false
allowed done cancelled = false
allowed _ _ = true

-- What a request for `target` gives: the todo in that state, or a conflict.
abbrev pub Enters : TodoStatus → Result Todo → Type 0
Enters target (ok t) = (t.status ≡ target) × HasCompletionState t
Enters target (err _) = ⊥

-- From a row that satisfies the check constraint, an allowed move ends in the requested state and in
-- a row that satisfies it; any other move is a conflict.
pub transition-outcome :
    (now : ℕ) (target : TodoStatus) (t : Todo)
    → HasCompletionState t
    → (allowed t.status target ≡ true → Enters target (transition now target t))
      × (allowed t.status target ≡ false
          → transition now target t ≡ err (app (Exceptions.todo todo_state_conflict)))
unfolding transition
transition-outcome now todo t h = ground arith
transition-outcome now in_progress t h = ground arith
transition-outcome now done t h = ground arith
transition-outcome now cancelled t h = ground arith
