-- ===== src/Services/Accounts/Verification.antt =====
-- The confirmation of an email address by a token.
use todo_api.Base.{
  ℕ, String, ◌≡◌, ◌≤◌, ◌<◌, refl, sym, ap, subst, ◌∙◌, arith, false, Option, some, List, find?,
  find?-meets, find?-count, count-taken, count_where, update_where, ltb, Option-cases, Bool-cases,
  inl, inr, ◌==◌, string_eq, nat_eq, ◌⊎◌,
}
use todo_api.Text.{strip, is_empty}
use todo_api.Exceptions.{SqlError}
use todo_api.Models.User.{User, is_email_verified}
use todo_api.Results.{is_ok}
use todo_api.Database.{Tables, Session, ok, run, next_answer, later_answers}
use todo_api.Platform.{Platform}
use todo_api.Tokens.{hash_secret}
use todo_api.Repositories.User.{save_user}
use todo_api.Services.Accounts.{verify_email, has_token, verified}

-- What a successful confirmation has found, and what it stores.
pub record IsVerification (p : Platform) (token : String) (now : ℕ) (db : Tables) (u : User)
    (db' : Tables) : Type 0 where
  pub holder : User
  pub expires : ℕ
  pub found : find? (has_token (hash_secret p (strip token))) db.users ≡ some holder
  pub unverified : is_email_verified holder ≡ false
  pub has_expiry : holder.email_verification_expires_at ≡ some expires
  pub unexpired : now < expires
  pub gives : u ≡ verified now holder
  pub stores : db' ≡ save_user u db

module _ (p : Platform) (token : String) (now : ℕ) (s : Session) (clean : s.db ≡ s.stored) where
  verify-cases :
      let out = verify_email p token now s in
      (is_ok out.0 ≡ false)
      ⊎ ((u : User) × (out.0 ≡ ok u) × IsVerification p token now s.stored u out.1.stored)
  unfolding verify_email
  verify-cases = elim (Bool-cases (is_empty (strip token))) [
    | inl nothing ↦ inl (ground arith)
    | inr something ↦ elim (Option-cases (next_answer s.answers)) [
      | inr (e, failed) ↦ inl (ground arith)
      | inl answered ↦
          elim (Option-cases (find? (has_token (hash_secret p (strip token))) s.db.users)) [
            | inl nobody ↦ inl (ground arith)
            | inr (u, found) ↦ elim (Bool-cases (is_email_verified u)) [
              | inl already ↦ inl (ground arith)
              | inr unverified ↦ elim (Option-cases u.email_verification_expires_at) [
                | inl never ↦ elim (Option-cases (next_answer (later_answers s.answers))) [
                  | inr (e, failed) ↦ inl (ground arith)
                  | inl stored ↦ inl (ground arith)
                ]
                | inr (expires, has_expiry) ↦
                    elim (Option-cases (next_answer (later_answers s.answers))) [
                      | inr (e, failed) ↦ inl (ground arith)
                      | inl stored ↦ elim (Bool-cases (ltb now expires)) [
                        | inr over ↦ inl (ground arith)
                        | inl live ↦ inr (
                          verified now u,
                          ground arith,
                          record {
                            holder = u;
                            expires = expires;
                            found =
                                ap (λ db. find? (has_token (hash_secret p (strip token))) db.users)
                                  (sym clean)
                                ∙ found;
                            unverified = unverified;
                            has_expiry = has_expiry;
                            unexpired = ground arith;
                            gives = refl;
                            stores = ground arith;
                          },
                        )
                      ]
                    ]
              ]
            ]
          ]
    ]
  ]

-- A token that no account holds is refused.
verify-refused :
    (p : Platform) (token : String) (now : ℕ) (s : Session)
    → s.db ≡ s.stored
    → count_where (has_token (hash_secret p (strip token))) s.stored.users ≡ 0
    → is_ok (verify_email p token now s).0 ≡ false
verify-refused p token now s clean nobody = elim (verify-cases p token now s clean) [
  | inl h ↦ h
  | inr (u, done, x) ↦
      let missing = find?-count (has_token (hash_secret p (strip token))) s.stored.users nobody in
      absurd (ground (arith, x.found))
]

-- Where one account at most holds the token, a token that has confirmed an address is refused from
-- then on, at any time and with any failures of the database, also with other white space around it.
pub verify_email-once :
    (p : Platform) (token later : String) (now later_now : ℕ)
    (answers later_answers : List (Option SqlError)) (db : Tables) (u : User)
    → count_where (has_token (hash_secret p (strip token))) db.users ≤ 1
    → (run (verify_email p token now) answers db).0 ≡ ok u
    → strip later ≡ strip token
    → is_ok
        (run
          (verify_email p later later_now)
          later_answers
          (run (verify_email p token now) answers db).1).0
      ≡ false
verify_email-once p token later now later_now answers later_answers db u one done same =
    let db' = (run (verify_email p token now) answers db).1 in
    let has = has_token (hash_secret p (strip token)) in
    elim (verify-cases p token now (record { db = db; stored = db; answers = answers }) refl) [
      | inl h ↦ absurd (ground arith)
      | inr (u', done', x) ↦
          let cleared : count_where has (update_where (λ r. r.id == u'.id) (λ _. u') db.users) ≡ 0 =
            count-taken has (λ r. r.id == u'.id) (λ _. u') (λ r h. ground (arith, x.gives)) has
              db.users x.holder one x.found (find?-meets has db.users x.holder x.found)
              (ground (arith, x.gives)) in
          verify-refused p later later_now
            (record { db = db'; stored = db'; answers = later_answers }) refl
            (subst (λ c. count_where (has_token (hash_secret p c)) db'.users ≡ 0) (sym same)
              (ap (λ d. count_where has d.users) x.stores ∙ cleared))
    ]
