-- ===== src/Repositories/RefreshSession.antt =====
-- repositories/refresh_session.py, and the rows of that table that the services read and write.
use todo_api.Base.{ℕ, Bool, ◌==◌, string_eq, leb, update_where, delete_where, count_where}
use todo_api.Models.RefreshSession.{RefreshSession}
use todo_api.Database.{Tables, Action, ◌>>=◌, ◌>>◌, pure, gets, modify, call}

abbrev pub has_expired : ℕ → RefreshSession → Bool
has_expired expired_at r = leb r.expires_at expired_at

unfoldable pub prune_expired_refresh_sessions : ℕ → Action ℕ
prune_expired_refresh_sessions expired_at = do
  call
  deleted ← gets (λ db. count_where (has_expired expired_at) db.refresh_sessions)
  modify (λ db. record db {
    refresh_sessions = delete_where (has_expired expired_at) db.refresh_sessions;
  })
  pure deleted

-- The UPDATE of one row, by its primary key.
abbrev pub save_session : RefreshSession → Tables → Tables
save_session r db = record db {
  refresh_sessions = update_where (λ x. x.id == r.id) (λ _. r) db.refresh_sessions;
}
