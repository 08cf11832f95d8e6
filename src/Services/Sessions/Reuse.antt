-- ===== src/Services/Sessions/Reuse.antt =====
-- The answer to a refresh token that is neither the current one nor a retry.
use todo_api.Base.{
  ℕ, String, ◌≡◌, ◌≤◌, refl, arith, true, false, some, List, [], ◌∷◌, update_where, is_some,
  Option-cases, Bool-cases, inl, inr, subst, ◌⊎◌, ◌==◌, string_eq, nat_eq, ◌&&◌, All, ◌+◌, ap, sym,
}
use todo_api.Exceptions
use todo_api.Exceptions.{app}
use todo_api.Exceptions.Auth.{refresh_token_reuse_detected}
use todo_api.Text.Decimal.{ℤ, int}
use todo_api.Models.RefreshSession.{RefreshSession, is_active, revoke}
use todo_api.Database.{Tables, ok, err, run, next_answer, later_answers}
use todo_api.Config.{Settings}
use todo_api.Platform.{Platform}
use todo_api.Tokens.{RefreshTokenPayload, hash_secret}
use todo_api.Tokens.Create.{Nonces}
use todo_api.Tokens.Decode.{decode_refresh_token}
use todo_api.Repositories.RefreshSession.{save_session}
use todo_api.Services.Sessions.{
  accepts, refresh_login_session, same_user, find_session, is_recoverable_previous_token,
}
use todo_api.Services.Sessions.Detection.{IsRevoked}

save_session-IsRevoked :
    (r : RefreshSession) (now : ℕ) (rows : List RefreshSession)
    → All
        (λ x. (x.id == r.id) ≡ true → is_some x.revoked_at ≡ true)
        (update_where (λ x. x.id == r.id) (λ _. revoke now r) rows)
unfolding revoke
save_session-IsRevoked r now [] = tt
save_session-IsRevoked r now (x ∷ xs) = elim (Bool-cases (x.id == r.id)) [
  | inl same ↦ rw same ((λ e. refl), save_session-IsRevoked r now xs)
  | inr other ↦ simp other ((λ e. absurd (ground arith)), save_session-IsRevoked r now xs)
]

module _ (p : Platform) (settings : Settings) (nonces : Nonces) (now checked_at : ℕ) where
  refresh_reuse :
      (token : String) (payload : RefreshTokenPayload) (user_id : ℤ) (r : RefreshSession)
      (db : Tables)
      → decode_refresh_token p settings token now ≡ ok payload
      → int payload.base.sub ≡ some user_id
      → find_session payload.session_id db ≡ some r
      → (same_user r.user_id user_id && is_active r now) ≡ true
      → accepts p settings r token now ≡ false
      → run (refresh_login_session p settings nonces token now checked_at) [] db
        ≡ (err (app (Exceptions.auth refresh_token_reuse_detected)), save_session (revoke now r) db)
  unfolding refresh_login_session next_answer later_answers
  refresh_reuse token payload user_id r db read subject found live reused = ground arith

  -- A token that decodes and names a live session of its user, but is neither the session's current
  -- token nor acceptable as a retry, is answered by the error that reports the reuse, and every row of
  -- the session that it names is stored as revoked, where no call fails.
  pub refresh-reuse :
      (token : String) (payload : RefreshTokenPayload) (user_id : ℤ) (r : RefreshSession)
      (db : Tables)
      → decode_refresh_token p settings token now ≡ ok payload
      → int payload.base.sub ≡ some user_id
      → find_session payload.session_id db ≡ some r
      → (same_user r.user_id user_id && is_active r now) ≡ true
      → accepts p settings r token now ≡ false
      → let out = run (refresh_login_session p settings nonces token now checked_at) [] db in
        (out.0 ≡ err (app (Exceptions.auth refresh_token_reuse_detected))) × IsRevoked r.id out.1
  unfolding revoke
  refresh-reuse token payload user_id r db read subject found live reused =
      let e = refresh_reuse token payload user_id r db read subject found live reused in
      (
        ap (λ out. out.0) e,
        subst (IsRevoked r.id) (sym (ap (λ out. out.1) e))
            (save_session-IsRevoked r now db.refresh_sessions),
      )

-- A token that is accepted hashes to the session's current hash, or to the one before it
-- while the grace period is set and the last rotation lies no longer back than that period.
pub accepts-IsRecent :
    (p : Platform) (settings : Settings) (r : RefreshSession) (token : String) (now : ℕ)
    → accepts p settings r token now ≡ true
    → ((r.token_hash == hash_secret p token) ≡ true)
      ⊎ ((rotated_at : ℕ) × (previous : String) × (r.rotated_at ≡ some rotated_at)
          × (r.previous_token_hash ≡ some previous)
          × ((previous == hash_secret p token) ≡ true)
          × (now ≤ rotated_at + settings.refresh_token_reuse_grace)
          × ((settings.refresh_token_reuse_grace == 0) ≡ false))
unfolding accepts is_recoverable_previous_token
accepts-IsRecent p settings r token now h =
    elim (Bool-cases (r.token_hash == hash_secret p token)) [
      | inl current ↦ inl current
      | inr other ↦ elim (Option-cases r.rotated_at) [
        | inl never ↦ absurd (ground arith)
        | inr (rotated_at, at) ↦ elim (Option-cases r.previous_token_hash) [
          | inl first ↦ absurd (ground arith)
          | inr (previous, was) ↦
              inr (rotated_at, previous, at, was, ground arith, ground arith, ground arith)
        ]
      ]
    ]
