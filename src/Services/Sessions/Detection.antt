-- ===== src/Services/Sessions/Detection.antt =====
-- What revoking a session is worth: the table of sessions through any history of logins, refreshes,
-- logouts and clean-ups.
use todo_api.Base.{
  ℕ, String, ◌≡◌, refl, sym, subst, arith, not, true, false, Option, List, [], ◌∷◌, All, All-append,
  All-filter, All-update_where, find?-All, find?-meets, is_some, Option-cases, inl, inr, ◌==◌,
  string_eq, nat_eq, ◌&&◌, ◌⊎◌, delete_where,
}
use todo_api.Exceptions.{SqlError}
use todo_api.Text.Decimal.{int}
use todo_api.Models.User.{User}
use todo_api.Models.RefreshSession.{is_active, revoke, rotate}
use todo_api.Results.{is_ok}
use todo_api.Database.{Tables, Session, ok, run, next_answer, later_answers}
use todo_api.Config.{Settings}
use todo_api.Platform.{Platform}
use todo_api.Tokens.{RefreshTokenPayload}
use todo_api.Tokens.Create.{Nonces}
use todo_api.Tokens.Decode.{decode_refresh_token}
use todo_api.Repositories.RefreshSession.{prune_expired_refresh_sessions, has_expired}
use todo_api.Maintenance.{prune_refresh_sessions}
use todo_api.Services.Sessions.{
  create_login_session, refresh_login_session, revoke_refresh_session, same_user, find_session,
}
use todo_api.Services.Sessions.Effects.{
  Effect, unchanged, revokes, rotates, refresh_login_session-Effect, revoke_refresh_session-Effect,
  create_login_session-Logged,
}

-- The calls that write the table of sessions; each comes on a database session of its own.
pub data SessionCall : Type 0 where
  login : Nonces → User → SessionCall
  refresh : Nonces → String → SessionCall
  logout : String → SessionCall
  prune : SessionCall

pub record TimedCall : Type 0 where
  pub session_call : SessionCall
  pub now : ℕ
  pub checked_at : ℕ
  pub answers : List (Option SqlError)

module _ (p : Platform) (settings : Settings) where
  unfoldable pub perform_call : TimedCall → Tables → Tables
  perform_call c db = elim c.session_call [
    | login nonces user ↦
        (run (create_login_session p settings nonces user c.now c.checked_at) c.answers db).1
    | refresh nonces token ↦
        (run (refresh_login_session p settings nonces token c.now c.checked_at) c.answers db).1
    | logout token ↦ (run (revoke_refresh_session p settings token c.now) c.answers db).1
    | prune ↦ (run (prune_refresh_sessions c.now) c.answers db).1
  ]

  pub perform_all : List TimedCall → Tables → Tables
  perform_all [] db = db
  perform_all (c ∷ cs) db = perform_all cs (perform_call c db)

-- Every row with that identifier is revoked.
abbrev pub IsRevoked : String → Tables → Type 0
IsRevoked id db = All (λ r. (r.id == id) ≡ true → is_some r.revoked_at ≡ true) db.refresh_sessions

-- Logins draw other identifiers.
abbrev pub AvoidsId : String → SessionCall → Type 0
AvoidsId id (login nonces user) = (nonces.session_id == id) ≡ false
AvoidsId id _ = Unit

Effect-IsRevoked :
    (id : String) (db db' : Tables) → Effect db db' → IsRevoked id db → IsRevoked id db'
unfolding revoke rotate is_active
Effect-IsRevoked id db db' (unchanged e) h = subst (IsRevoked id) (sym e) h
Effect-IsRevoked id db db' (revokes q r now found e) h = subst (IsRevoked id) (sym e) (
    All-update_where (λ r. (r.id == id) ≡ true → is_some r.revoked_at ≡ true) (λ x. x.id == r.id)
      (λ _. revoke now r) db.refresh_sessions (λ x hx same named. refl) h)
Effect-IsRevoked id db db' (rotates q r next hash expires now found e e') h =
    let before : (r.id == id) ≡ true → is_some r.revoked_at ≡ true =
      find?-All (λ r. (r.id == id) ≡ true → is_some r.revoked_at ≡ true) q db.refresh_sessions r h
        found in
    subst (IsRevoked id) (sym e') (
      All-update_where (λ r. (r.id == id) ≡ true → is_some r.revoked_at ≡ true)
        (λ x. x.id == next.id) (λ _. next) db.refresh_sessions
        (λ x hx same named. absurd (ground (arith, before))) h)

prune_refresh_sessions-keeps :
    (now : ℕ) (s : Session)
    → s.db ≡ s.stored
    → let db' = (prune_refresh_sessions now s).1.stored in
      (db' ≡ s.stored)
      ⊎ (db' ≡ record s.stored {
        refresh_sessions = delete_where (has_expired now) s.stored.refresh_sessions;
      })
unfolding prune_refresh_sessions prune_expired_refresh_sessions
prune_refresh_sessions-keeps now s clean = elim (Option-cases (next_answer s.answers)) [
  | inr (e, failed) ↦ inl (ground arith)
  | inl answered ↦ elim (Option-cases (next_answer (later_answers s.answers))) [
    | inr (e, failed) ↦ inl (ground arith)
    | inl stored ↦ inr (ground arith)
  ]
]

module _ (p : Platform) (settings : Settings) (id : String) where
  perform_call-IsRevoked :
      (k : SessionCall) (now at : ℕ) (answers : List (Option SqlError)) (db : Tables)
      → AvoidsId id k
      → IsRevoked id db
      → IsRevoked id (
          perform_call p settings
            (record { session_call = k; now = now; checked_at = at; answers = answers })
            db)
  unfolding perform_call
  perform_call-IsRevoked (login nonces user) now at answers db avoids h =
      elim (create_login_session-Logged p settings nonces now at user
        (record { db = db; stored = db; answers = answers }) refl) [
          | inl e ↦ subst (IsRevoked id) (sym e) h
          | inr (r, named, e) ↦ subst (IsRevoked id) (sym e) (
              All-append (λ r. (r.id == id) ≡ true → is_some r.revoked_at ≡ true)
                db.refresh_sessions (r ∷ []) h ((λ same. absurd (ground arith)), tt))
        ]
  perform_call-IsRevoked (refresh nonces token) now at answers db avoids h =
      Effect-IsRevoked id db _
        (refresh_login_session-Effect p settings nonces now at token
          (record { db = db; stored = db; answers = answers }) refl)
        h
  perform_call-IsRevoked (logout token) now at answers db avoids h =
      Effect-IsRevoked id db _
        (revoke_refresh_session-Effect p settings now token
          (record { db = db; stored = db; answers = answers }) refl)
        h
  perform_call-IsRevoked prune now at answers db avoids h =
      elim (prune_refresh_sessions-keeps now (record { db = db; stored = db; answers = answers })
        refl) [
          | inl e ↦ subst (IsRevoked id) (sym e) h
          | inr e ↦ subst (IsRevoked id) (sym e) (
              All-filter (λ r. (r.id == id) ≡ true → is_some r.revoked_at ≡ true)
                (λ r. not (has_expired now r)) db.refresh_sessions h)
        ]

  pub perform_all-IsRevoked :
      (cs : List TimedCall) (db : Tables)
      → All (λ c. AvoidsId id c.session_call) cs
      → IsRevoked id db
      → IsRevoked id (perform_all p settings cs db)
  unfolding perform_all
  perform_all-IsRevoked [] db avoids h = h
  perform_all-IsRevoked (c ∷ cs) db avoids h =
      perform_all-IsRevoked cs (perform_call p settings c db) avoids.1
        (perform_call-IsRevoked c.session_call c.now c.checked_at c.answers db avoids.0 h)

  refresh_revoked :
      (nonces : Nonces) (token : String) (now checked_at : ℕ) (payload : RefreshTokenPayload)
      (s : Session)
      → decode_refresh_token p settings token now ≡ ok payload
      → s.db ≡ s.stored
      → IsRevoked payload.session_id s.db
      → let out = refresh_login_session p settings nonces token now checked_at s in
        (is_ok out.0 ≡ false) × (out.1.stored ≡ s.stored)
  unfolding refresh_login_session is_active
  refresh_revoked nonces token now checked_at payload s read clean h =
      elim (Option-cases (int payload.base.sub)) [
        | inl malformed ↦ (ground arith, ground arith)
        | inr (user_id, subject) ↦ elim (Option-cases (next_answer s.answers)) [
          | inr (e, failed) ↦ (ground arith, ground arith)
          | inl answered ↦ elim (Option-cases (find_session payload.session_id s.db)) [
            | inl missing ↦ (ground arith, ground arith)
            | inr (r, found) ↦
                let over : is_some r.revoked_at ≡ true =
                  find?-All (λ r. (r.id == payload.session_id) ≡ true → is_some r.revoked_at ≡ true)
                    (λ r. r.id == payload.session_id) s.db.refresh_sessions r h found
                    (find?-meets (λ r. r.id == payload.session_id) s.db.refresh_sessions r found) in
                let refused : (same_user r.user_id user_id && is_active r now) ≡ false =
                  ground arith in
                (ground arith, ground arith)
          ]
        ]
      ]

  -- Once every row of a session is revoked, no later history of logins (that draw other identifiers),
  -- refreshes, logouts and clean-ups, at any times and with any database failures, makes it usable
  -- again: a refresh with any token that names the session ends in an error and stores nothing.
  pub refresh-revoked :
      (cs : List TimedCall) (db : Tables) (nonces : Nonces) (token : String) (now checked_at : ℕ)
      (answers : List (Option SqlError)) (payload : RefreshTokenPayload)
      → IsRevoked id db
      → All (λ c. AvoidsId id c.session_call) cs
      → decode_refresh_token p settings token now ≡ ok payload
      → payload.session_id ≡ id
      → let db' = perform_all p settings cs db in
        let out = run (refresh_login_session p settings nonces token now checked_at) answers db' in
        (is_ok out.0 ≡ false) × (out.1 ≡ db')
  refresh-revoked cs db nonces token now checked_at answers payload h avoids read named =
      refresh_revoked nonces token now checked_at payload
        (record {
          db = perform_all p settings cs db;
          stored = perform_all p settings cs db;
          answers = answers;
        })
        read refl
        (subst (λ i. IsRevoked i (perform_all p settings cs db)) (sym named)
          (perform_all-IsRevoked cs db avoids h))
