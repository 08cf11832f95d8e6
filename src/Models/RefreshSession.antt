-- ===== src/Models/RefreshSession.antt =====
-- models/refresh_session.py: the server's side of a rotating refresh token.
pub mod Lifecycle
use todo_api.Base.{
  ℕ, String, Bool, true, false, ◌&&◌, ◌≤◌, Option, none, some, or_else, is_none, ltb, min,
  if◌then◌else◌,
}

pub record RefreshSession : Type 0 where
  pub id : String
  pub user_id : ℕ
  pub token_hash : String
  pub previous_token_hash : Option String
  pub expires_at : ℕ
  pub absolute_expires_at : ℕ
  pub revoked_at : Option ℕ
  pub last_used_at : Option ℕ
  pub rotated_at : Option ℕ

-- `RefreshSession.is_active` at a given time.
unfoldable pub is_active : RefreshSession → ℕ → Bool
is_active r now = is_none r.revoked_at && ltb now r.expires_at && ltb now r.absolute_expires_at

-- `self.revoked_at or at`: an earlier revocation is kept.
unfoldable pub revoke : ℕ → RefreshSession → RefreshSession
revoke now r = record r { revoked_at = some (or_else r.revoked_at now) }

-- `RefreshSession.rotate`; `none` is its `ValueError`.
unfoldable pub rotate : String → ℕ → ℕ → RefreshSession → Option RefreshSession
unfolding is_active
rotate token_hash expires_at now r =
    if is_active r now
    then some (record r {
      previous_token_hash = some r.token_hash;
      token_hash = token_hash;
      expires_at = min expires_at r.absolute_expires_at;
      last_used_at = some now;
      rotated_at = some now;
    })
    else none

-- The check constraint `idle_before_absolute`.
abbrev pub IsBounded : RefreshSession → Type 0
IsBounded r = r.expires_at ≤ r.absolute_expires_at
