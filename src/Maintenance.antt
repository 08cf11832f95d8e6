-- ===== src/Maintenance.antt =====
-- background/maintenance.py: the periodic jobs, each in a transaction of its own.
pub mod Counts
use todo_api.Base.{ℕ, ◌==◌, nat_eq, if◌then◌else◌, ◌-◌}
use todo_api.Config.{days}
use todo_api.Database.{Action, ◌>>=◌, ◌>>◌, pure, commit}
use todo_api.Repositories.Todo.{archive_completed_todos}
use todo_api.Repositories.User.{clear_expired_email_verification_tokens}
use todo_api.Repositories.RefreshSession.{prune_expired_refresh_sessions}
use todo_api.Repositories.Oauth.{prune_expired_authorization_codes}

-- `session.begin()`: the block's changes are committed behind it.
abbrev pub begin : {A : Type 0} → Action A → Action A
begin block = do a ← block; commit; pure a

unfoldable pub prune_oauth_authorization_codes : ℕ → Action ℕ
prune_oauth_authorization_codes now = begin (prune_expired_authorization_codes now)

unfoldable pub prune_refresh_sessions : ℕ → Action ℕ
prune_refresh_sessions now = begin (prune_expired_refresh_sessions now)

unfoldable pub clear_expired_verification_tokens : ℕ → Action ℕ
clear_expired_verification_tokens now = begin (clear_expired_email_verification_tokens now)

unfoldable pub auto_archive_completed_todos : ℕ → ℕ → Action ℕ
auto_archive_completed_todos after_days now =
    if after_days == 0 then pure 0 else begin (archive_completed_todos (now - days after_days))
