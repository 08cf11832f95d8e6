-- ===== src/Tokens/Lifetimes.antt =====
-- No token outlives the deadline that it is made for.
use todo_api.Base.{ℕ, ◌≡◌, ◌≤◌, ◌<◌, ◌+◌, arith, some}
use todo_api.Exceptions.{value_error}
use todo_api.Results.{ok, err}
use todo_api.Tokens.{bounded_lifetime}

-- A bounded lifetime is positive if the default is, is no longer than it, and ends by the deadline;
-- it is refused exactly if the deadline is not in the future.
bounded_lifetime_range :
    (span issued_at deadline : ℕ) {bounded : ℕ}
    → 0 < span
    → bounded_lifetime span issued_at (some deadline) ≡ ok bounded
    → (0 < bounded) × (bounded ≤ span) × (issued_at + bounded ≤ deadline)
unfolding bounded_lifetime
bounded_lifetime_range span issued_at deadline h e = ground arith

bounded_lifetime_refused :
    (span issued_at deadline : ℕ)
    → deadline ≤ issued_at
    → bounded_lifetime span issued_at (some deadline) ≡ err value_error
unfolding bounded_lifetime
bounded_lifetime_refused span issued_at deadline h = ground arith
