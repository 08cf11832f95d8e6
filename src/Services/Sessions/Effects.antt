-- ===== src/Services/Sessions/Effects.antt =====
-- What each call on sessions can leave in the stored table: nothing new, one session revoked, one
-- session rotated, or one session more.
use todo_api.Base.{
  ℕ, String, ◌≡◌, refl, sym, ap, ◌∙◌, arith, Bool, Option, none, some, [], ◌∷◌, ◌++◌, find?,
  Option-cases, Bool-cases, inl, inr, subst, ◌+◌, ◌⊎◌, is_some, ◌&&◌, ◌==◌, string_eq, nat_eq,
}
use todo_api.Exceptions.{SqlError, Raised}
use todo_api.Text.Decimal.{ℤ, int, show}
use todo_api.Models.User.{User, is_email_verified}
use todo_api.Models.RefreshSession.{RefreshSession, is_active, revoke, rotate}
use todo_api.Results.{Result-cases}
use todo_api.Database.{◌>>=◌, Tables, Session, ok, err, next_answer, later_answers}
use todo_api.Config.{Settings}
use todo_api.Platform.{Platform}
use todo_api.Tokens.{TokenResponse, hash_secret}
use todo_api.Tokens.Create.{Nonces, create_token_pair}
use todo_api.Tokens.Decode.{decode_refresh_token}
use todo_api.Repositories.RefreshSession.{save_session}
use todo_api.Services.Sessions.{
  accepts, rotate_session, issue_rotation, required_user, stage_login_session, create_login_session,
  refresh_login_session, revoke_refresh_session, staged_session, find_session, find_user, readable,
  same_user,
}

pub data Effect (db db' : Tables) : Type 0 where
  unchanged : db' ≡ db → Effect db db'
  revokes :
      (p : RefreshSession → Bool) (r : RefreshSession) (now : ℕ)
      → find? p db.refresh_sessions ≡ some r
      → db' ≡ save_session (revoke now r) db
      → Effect db db'
  rotates :
      (p : RefreshSession → Bool) (r next : RefreshSession) (hash : String) (expires now : ℕ)
      → find? p db.refresh_sessions ≡ some r
      → rotate hash expires now r ≡ some next
      → db' ≡ save_session next db
      → Effect db db'

module _ (p : Platform) (settings : Settings) (nonces : Nonces) (now checked_at : ℕ) where
  module _ (q : RefreshSession → Bool) (r : RefreshSession) (s : Session)
      (found : find? q s.stored.refresh_sessions ≡ some r) (clean : s.db ≡ s.stored) where
    issue_rotation-Effect :
        (u : User)
        → Effect s.stored (issue_rotation p settings nonces r now checked_at u s).1.stored
    unfolding issue_rotation
    issue_rotation-Effect u =
        elim (Result-cases
          (create_token_pair p settings (show u.id) r.id now (some r.absolute_expires_at) nonces)) [
            | inr (e, bad) ↦ unchanged (ground arith)
            | inl (tokens, made) ↦
                elim (Result-cases
                  (decode_refresh_token p settings tokens.refresh_token checked_at)) [
                    | inr (e, bad) ↦ unchanged (ground arith)
                    | inl (payload, read) ↦
                        elim (Option-cases
                          (rotate (hash_secret p tokens.refresh_token) payload.base.exp now r)) [
                            | inl inactive ↦ unchanged (ground arith)
                            | inr (next, e) ↦ elim (Option-cases (next_answer s.answers)) [
                              | inr (x, failed) ↦ unchanged (ground arith)
                              | inl stored ↦
                                  rotates q r next (hash_secret p tokens.refresh_token)
                                    payload.base.exp now found e (ground arith)
                            ]
                          ]
                  ]
          ]

  module _ (q : RefreshSession → Bool) (r : RefreshSession) (s : Session)
      (found : find? q s.stored.refresh_sessions ≡ some r) (clean : s.db ≡ s.stored) where
    required_user-Effect :
        (o : Option User)
        → Effect s.stored
            ((required_user r now o >>= issue_rotation p settings nonces r now checked_at)
              s).1.stored
    required_user-Effect none = elim (Option-cases (next_answer s.answers)) [
      | inr (e, failed) ↦ unchanged (ground arith)
      | inl stored ↦ revokes q r now found (ground arith)
    ]
    required_user-Effect (some u) = elim (Bool-cases u.is_active) [
      | inr off ↦ unchanged (ground arith)
      | inl on ↦ elim (Bool-cases (is_email_verified u)) [
        | inr unverified ↦ unchanged (ground arith)
        | inl verified ↦ simp (on, verified) (issue_rotation-Effect q r s found clean u)
      ]
    ]

  pub rotate_session-answered :
      (r : RefreshSession) (user_id : ℤ) (s : Session)
      → next_answer s.answers ≡ none
      → rotate_session p settings nonces r user_id now checked_at s
        ≡ (required_user r now (find_user user_id s.db)
              >>= issue_rotation p settings nonces r now checked_at)
            (record s { answers = later_answers s.answers })
  unfolding rotate_session
  rotate_session-answered r user_id s answered = ground arith

  rotate_session-failed :
      (r : RefreshSession) (user_id : ℤ) (s : Session) (e : SqlError)
      → next_answer s.answers ≡ some e
      → (rotate_session p settings nonces r user_id now checked_at s).1.stored ≡ s.stored
  unfolding rotate_session
  rotate_session-failed r user_id s e failed = ground arith

  rotate_session-Effect :
      (q : RefreshSession → Bool) (r : RefreshSession) (user_id : ℤ) (s : Session)
      → find? q s.stored.refresh_sessions ≡ some r
      → s.db ≡ s.stored
      → Effect s.stored (rotate_session p settings nonces r user_id now checked_at s).1.stored
  rotate_session-Effect q r user_id s found clean = elim (Option-cases (next_answer s.answers)) [
    | inr (e, failed) ↦ unchanged (rotate_session-failed r user_id s e failed)
    | inl answered ↦
        subst (λ x. Effect s.stored x.1.stored) (sym (rotate_session-answered r user_id s answered))
          (required_user-Effect q r (record s { answers = later_answers s.answers }) found clean
            (find_user user_id s.db))
  ]

  pub refresh_login_session-Effect :
      (token : String) (s : Session)
      → s.db ≡ s.stored
      → Effect s.stored (refresh_login_session p settings nonces token now checked_at s).1.stored
  unfolding refresh_login_session
  refresh_login_session-Effect token s clean =
      elim (Result-cases (decode_refresh_token p settings token now)) [
        | inr (e, bad) ↦ unchanged (ground arith)
        | inl (payload, read) ↦ elim (Option-cases (int payload.base.sub)) [
          | inl malformed ↦ unchanged (ground arith)
          | inr (user_id, subject) ↦ elim (Option-cases (next_answer s.answers)) [
            | inr (e, failed) ↦ unchanged (ground arith)
            | inl answered ↦ elim (Option-cases (find_session payload.session_id s.db)) [
              | inl missing ↦ unchanged (ground arith)
              | inr (r, found) ↦
                  elim (Bool-cases (same_user r.user_id user_id && is_active r now)) [
                    | inr refused ↦ unchanged (ground arith)
                    | inl live ↦ elim (Bool-cases (accepts p settings r token now)) [
                      | inl current ↦
                          subst (λ db. Effect s.stored db) (ground arith)
                            (rotate_session-Effect (λ x. x.id == payload.session_id) r user_id
                              (record s { answers = later_answers s.answers })
                              (ap (λ db. find_session payload.session_id db) (sym clean) ∙ found)
                              clean)
                      | inr reused ↦ elim (Option-cases (next_answer (later_answers s.answers))) [
                        | inr (e, failed) ↦ unchanged (ground arith)
                        | inl stored ↦
                            revokes (λ x. x.id == payload.session_id) r now
                              (ap (λ db. find_session payload.session_id db) (sym clean) ∙ found)
                              (ground arith)
                      ]
                    ]
                  ]
            ]
          ]
        ]
      ]

module _ (p : Platform) (settings : Settings) (now : ℕ) where
  pub revoke_refresh_session-Effect :
      (token : String) (s : Session)
      → s.db ≡ s.stored
      → Effect s.stored (revoke_refresh_session p settings token now s).1.stored
  unfolding revoke_refresh_session
  revoke_refresh_session-Effect token s clean =
      elim (Option-cases (readable (decode_refresh_token p settings token now))) [
        | inl unreadable ↦ unchanged (ground arith)
        | inr ((payload, user_id), e) ↦ elim (Option-cases (next_answer s.answers)) [
          | inr (e, failed) ↦ unchanged (ground arith)
          | inl answered ↦
              elim (Option-cases (
                find? (λ r. r.id == payload.session_id && same_user r.user_id user_id)
                  s.db.refresh_sessions)) [
                    | inl missing ↦ unchanged (ground arith)
                    | inr (r, found) ↦ elim (Bool-cases (is_some r.revoked_at)) [
                      | inl over ↦ unchanged (ground arith)
                      | inr live ↦ elim (Option-cases (next_answer (later_answers s.answers))) [
                        | inr (e, failed) ↦ unchanged (ground arith)
                        | inl stored ↦
                            revokes (λ r. r.id == payload.session_id && same_user r.user_id user_id)
                              r now
                              (subst
                                (λ db.
                                  find?
                                    (λ r. r.id == payload.session_id && same_user r.user_id user_id)
                                    db.refresh_sessions
                                  ≡ some r)
                                clean found)
                              (ground arith)
                      ]
                    ]
                  ]
        ]
      ]

-- The session that a login adds, if the login stores anything.
abbrev pub Logged : (id : String) (db db' : Tables) → Type 0
Logged id db db' =
    (r : RefreshSession) × (r.id ≡ id)
    × (db' ≡ record db { refresh_sessions = db.refresh_sessions ++ r ∷ [] })

module _ (p : Platform) (settings : Settings) (nonces : Nonces) (now checked_at : ℕ) where
  pub create_login_session-Logged :
      (user : User) (s : Session)
      → s.db ≡ s.stored
      → let db' = (create_login_session p settings nonces user now checked_at s).1.stored in
        (db' ≡ s.stored) ⊎ Logged nonces.session_id s.stored db'
  unfolding create_login_session stage_login_session
  create_login_session-Logged user s clean =
      elim (Result-cases (
        create_token_pair p settings (show user.id) nonces.session_id now
          (some (now + settings.refresh_session_absolute_ttl)) nonces)) [
            | inr (e, bad) ↦ inl (ground arith)
            | inl (tokens, made) ↦
                elim (Result-cases
                  (decode_refresh_token p settings tokens.refresh_token checked_at)) [
                    | inr (e, bad) ↦ inl (ground arith)
                    | inl (payload, read) ↦ elim (Option-cases (next_answer s.answers)) [
                      | inr (e, failed) ↦ inl (ground arith)
                      | inl stored ↦ inr (
                        staged_session p user nonces.session_id tokens payload.base.exp
                            (now + settings.refresh_session_absolute_ttl) now,
                        refl,
                        ground arith,
                      )
                    ]
                  ]
          ]

-- A staged login either fails and leaves the session of the database alone, or adds one row.
pub stage_login_session-cases :
    (p : Platform) (settings : Settings) (nonces : Nonces) (user : User) (now checked_at : ℕ)
    (s : Session)
    → ((e : Raised) × (stage_login_session p settings nonces user now checked_at s ≡ (err e, s)))
      ⊎ ((t : TokenResponse) × (expires : ℕ) × (stage_login_session p settings nonces user now
              checked_at s
            ≡ (
              ok t,
              record s {
                db = record s.db {
                  refresh_sessions =
                      s.db.refresh_sessions
                      ++ staged_session p user nonces.session_id t expires
                          (now + settings.refresh_session_absolute_ttl)
                          now
                        ∷ [];
                };
              },
            )))
unfolding stage_login_session
stage_login_session-cases p settings nonces user now checked_at s =
    elim (Result-cases (
      create_token_pair p settings (show user.id) nonces.session_id now
        (some (now + settings.refresh_session_absolute_ttl)) nonces)) [
          | inr (e, bad) ↦ inl (e, ground arith)
          | inl (tokens, made) ↦
              elim (Result-cases
                (decode_refresh_token p settings tokens.refresh_token checked_at)) [
                  | inr (e, bad) ↦ inl (e, ground arith)
                  | inl (payload, read) ↦ inr (tokens, payload.base.exp, ground arith)
                ]
        ]
