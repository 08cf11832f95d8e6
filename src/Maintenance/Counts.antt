-- ===== src/Maintenance/Counts.antt =====
-- The counts that the periodic jobs report, and what a second run finds.
use todo_api.Base.{
  ℕ, ◌≡◌, arith, Bool, true, [], delete_where, update_where, count-delete, count-update_where,
  delete-count, update_where-count, refl, Bool-cases, inl, inr, ◌==◌, nat_eq, leb, ◌-◌,
}
use todo_api.Config.{days}
use todo_api.Models.OauthAuthorizationCode.{OauthAuthorizationCode}
use todo_api.Database.{Action, Tables, run, ok, next_answer, later_answers}
use todo_api.Repositories.Todo.{archive_completed_todos, is_archivable}
use todo_api.Repositories.User.{
  clear_expired_email_verification_tokens, has_expired_token, without_token,
}
use todo_api.Repositories.RefreshSession.{has_expired, prune_expired_refresh_sessions}
use todo_api.Repositories.Oauth.{prune_expired_authorization_codes}
use todo_api.Maintenance.{
  prune_oauth_authorization_codes, prune_refresh_sessions, clear_expired_verification_tokens,
  auto_archive_completed_todos,
}

-- A second run of the job right behind the first reports 0 and changes nothing.
abbrev pub IsSettled : Action ℕ → Tables → Type 0
IsSettled job db = run job [] (run job [] db).1 ≡ (ok 0, (run job [] db).1)

prune_refresh_sessions-IsSettled :
    (now : ℕ) (db : Tables) → IsSettled (prune_refresh_sessions now) db
unfolding prune_refresh_sessions prune_expired_refresh_sessions next_answer later_answers
prune_refresh_sessions-IsSettled now db =
    let p = has_expired now in
    let none_left = count-delete p db.refresh_sessions in
    rw (none_left, delete-count p (delete_where p db.refresh_sessions) none_left) refl

prune_oauth_authorization_codes-IsSettled :
    (now : ℕ) (db : Tables) → IsSettled (prune_oauth_authorization_codes now) db
unfolding prune_oauth_authorization_codes prune_expired_authorization_codes next_answer
    later_answers
prune_oauth_authorization_codes-IsSettled now db =
    let p : OauthAuthorizationCode → Bool = λ r. leb r.expires_at now in
    let none_left = count-delete p db.oauth_authorization_codes in
    rw (none_left, delete-count p (delete_where p db.oauth_authorization_codes) none_left) refl

clear_expired_verification_tokens-IsSettled :
    (now : ℕ) (db : Tables) → IsSettled (clear_expired_verification_tokens now) db
unfolding clear_expired_verification_tokens clear_expired_email_verification_tokens next_answer
    later_answers
clear_expired_verification_tokens-IsSettled now db =
    let p = has_expired_token now in
    let none_left = count-update_where p without_token db.users (λ u h. ground arith) in
    rw
      (
        none_left,
        update_where-count p without_token (update_where p without_token db.users) none_left,
      )
      refl

auto_archive_completed_todos-IsSettled :
    (after_days now : ℕ) (db : Tables) → IsSettled (auto_archive_completed_todos after_days now) db
unfolding auto_archive_completed_todos archive_completed_todos next_answer later_answers
auto_archive_completed_todos-IsSettled after_days now db = elim (Bool-cases (after_days == 0)) [
  | inl off ↦ rw off refl
  | inr on ↦
      let p = is_archivable (now - days after_days) in
      let none_left =
        count-update_where p (λ t. record t { is_archived = true }) db.todos
          (λ u h. ground arith) in
      rw
        (
          on,
          none_left,
          update_where-count p (λ t. record t { is_archived = true })
              (update_where p (λ t. record t { is_archived = true }) db.todos) none_left,
        )
        refl
]

-- Each periodic job, run a second time at the same moment with no call failing, reports 0 and leaves
-- the stored tables as the first run left them: what a job's condition selects is gone behind it.
pub jobs-IsSettled :
    (after_days now : ℕ) (db : Tables)
    → IsSettled (prune_refresh_sessions now) db
      × IsSettled (prune_oauth_authorization_codes now) db
      × IsSettled (clear_expired_verification_tokens now) db
      × IsSettled (auto_archive_completed_todos after_days now) db
jobs-IsSettled after_days now db = (
  prune_refresh_sessions-IsSettled now db,
  prune_oauth_authorization_codes-IsSettled now db,
  clear_expired_verification_tokens-IsSettled now db,
  auto_archive_completed_todos-IsSettled after_days now db,
)
