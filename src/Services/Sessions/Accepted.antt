-- ===== src/Services/Sessions/Accepted.antt =====
-- What a refresh that succeeds has found.
use todo_api.Base.{
  ℕ, String, ◌≡◌, ◌∙◌, sym, ap, refl, arith, true, false, ◌&&◌, Option, none, some, Option-cases,
  Bool-cases, inl, inr, string_eq, nat_eq,
}
use todo_api.Text.Decimal.{ℤ, int}
use todo_api.Exceptions
use todo_api.Exceptions.{SqlError, Raised, app, sql, value_error, hashing_error, unknown_hash_error}
use todo_api.Exceptions.Auth.{token_refresh_unavailable}
use todo_api.Models.User.{User, is_email_verified}
use todo_api.Models.RefreshSession.{RefreshSession, is_active}
use todo_api.Results.{Result-cases, is_ok}
use todo_api.Database.{
  Tables, Session, Result, ok, err, ◌>>=◌, next_answer, later_answers, translate_sql,
}
use todo_api.Config.{Settings}
use todo_api.Platform.{Platform}
use todo_api.Tokens.{TokenResponse, RefreshTokenPayload}
use todo_api.Tokens.Create.{Nonces}
use todo_api.Tokens.Decode.{decode_refresh_token}
use todo_api.Services.Sessions.{
  accepts, refresh_login_session, rotate_session, issue_rotation, required_user, same_user,
  find_session, find_user,
}
use todo_api.Services.Sessions.Effects.{rotate_session-answered}

pub record IsAccepted (p : Platform) (settings : Settings) (token : String) (now : ℕ) (db : Tables)
    : Type 0 where
  pub payload : RefreshTokenPayload
  pub user_id : ℤ
  pub row : RefreshSession
  pub user : User
  pub read : decode_refresh_token p settings token now ≡ ok payload
  pub subject : int payload.base.sub ≡ some user_id
  pub found : find_session payload.session_id db ≡ some row
  pub live : (same_user row.user_id user_id && is_active row now) ≡ true
  pub accepted : accepts p settings row token now ≡ true
  pub has_user : find_user user_id db ≡ some user
  pub active : user.is_active ≡ true
  pub verified : is_email_verified user ≡ true

module _ (p : Platform) (settings : Settings) (nonces : Nonces) (now checked_at : ℕ) where
  required_user-accepted :
      (r : RefreshSession) (o : Option User) (s : Session)
      → is_ok ((required_user r now o >>= issue_rotation p settings nonces r now checked_at) s).0
        ≡ true
      → (u : User) × (o ≡ some u) × (u.is_active ≡ true) × (is_email_verified u ≡ true)
  required_user-accepted r none s h = elim (Option-cases (next_answer s.answers)) [
    | inr (e, failed) ↦ absurd (ground arith)
    | inl stored ↦ absurd (ground arith)
  ]
  required_user-accepted r (some u) s h = elim (Bool-cases u.is_active) [
    | inr off ↦ absurd (ground arith)
    | inl on ↦ elim (Bool-cases (is_email_verified u)) [
      | inr unverified ↦ absurd (ground arith)
      | inl verified ↦ (u, refl, on, verified)
    ]
  ]

  rotate_session-refused :
      (r : RefreshSession) (user_id : ℤ) (s : Session) (e : SqlError)
      → next_answer s.answers ≡ some e
      → is_ok (rotate_session p settings nonces r user_id now checked_at s).0 ≡ false
  unfolding rotate_session
  rotate_session-refused r user_id s e failed = ground arith

  rotate_session-accepted :
      (r : RefreshSession) (user_id : ℤ) (s : Session)
      → is_ok (rotate_session p settings nonces r user_id now checked_at s).0 ≡ true
      → (u : User) × (find_user user_id s.db ≡ some u)
        × (u.is_active ≡ true)
        × (is_email_verified u ≡ true)
  rotate_session-accepted r user_id s h = elim (Option-cases (next_answer s.answers)) [
    | inr (e, failed) ↦ absurd (ground (arith, rotate_session-refused r user_id s e failed))
    | inl answered ↦
        required_user-accepted r (find_user user_id s.db)
          (record s { answers = later_answers s.answers })
          (ap (λ x. is_ok x.0)
              (sym (rotate_session-answered p settings nonces now checked_at r user_id s answered))
            ∙ h)
  ]

  translated_err :
      (e : Raised) (x : Result TokenResponse × Session)
      → x.0 ≡ err e
      → is_ok (translate_sql (Exceptions.auth token_refresh_unavailable) x.0) ≡ true
      → ⊥
  translated_err (app e) x bad h = cc (bad)
  translated_err (sql e) x bad h = cc (bad)
  translated_err value_error x bad h = cc (bad)
  translated_err hashing_error x bad h = cc (bad)
  translated_err unknown_hash_error x bad h = cc (bad)

  pub refresh_login_session-IsAccepted :
      (token : String) (s : Session)
      → is_ok (refresh_login_session p settings nonces token now checked_at s).0 ≡ true
      → IsAccepted p settings token now s.db
  unfolding refresh_login_session
  refresh_login_session-IsAccepted token s h =
      elim (Result-cases (decode_refresh_token p settings token now)) [
        | inr (e, bad) ↦ absurd (ground arith)
        | inl (payload, read) ↦ elim (Option-cases (int payload.base.sub)) [
          | inl malformed ↦ absurd (ground arith)
          | inr (user_id, subject) ↦ elim (Option-cases (next_answer s.answers)) [
            | inr (e, failed) ↦ absurd (ground arith)
            | inl answered ↦ elim (Option-cases (find_session payload.session_id s.db)) [
              | inl missing ↦ absurd (ground arith)
              | inr (r, found) ↦
                  elim (Bool-cases (same_user r.user_id user_id && is_active r now)) [
                    | inr refused ↦ absurd (ground arith)
                    | inl live ↦ elim (Bool-cases (accepts p settings r token now)) [
                      | inr reused ↦ elim (Option-cases (next_answer (later_answers s.answers))) [
                        | inr (e, failed) ↦ absurd (ground arith)
                        | inl stored ↦ absurd (ground arith)
                      ]
                      | inl current ↦
                          let s' : Session = record s { answers = later_answers s.answers } in
                          let rotates : is_ok
                                (rotate_session p settings nonces r user_id now checked_at s').0
                              ≡ true =
                            elim (Result-cases
                              (rotate_session p settings nonces r user_id now checked_at s').0) [
                                | inl (t, made) ↦ ground arith
                                | inr (e, bad) ↦ absurd (
                                    translated_err e
                                      (rotate_session p settings nonces r user_id now checked_at s')
                                      bad (ground arith))
                              ] in
                          let (u, has_user, active, verified) =
                            rotate_session-accepted r user_id s' rotates in
                          record {
                            payload = payload;
                            user_id = user_id;
                            row = r;
                            user = u;
                            read = read;
                            subject = subject;
                            found = found;
                            live = live;
                            accepted = current;
                            has_user = has_user;
                            active = active;
                            verified = verified;
                          }
                    ]
                  ]
            ]
          ]
        ]
      ]
