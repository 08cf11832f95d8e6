-- ===== src/Services/Accounts/Cooldown.antt =====
-- The cooldown of the mails that confirm an address.
use todo_api.Base.{
  ℕ, String, ◌≡◌, ◌<◌, ◌+◌, refl, sym, ap, subst, ◌∙◌, arith, Bool, true, false, Option, some, List,
  [], ◌∷◌, find?, find?-meets, update_where, Option-cases, Bool-cases, inl, inr, ◌==◌, string_eq,
  nat_eq,
}
use todo_api.Exceptions.{SqlError}
use todo_api.Models.User.{User, is_email_verified}
use todo_api.Results.{Result, ok}
use todo_api.Database.{Tables, run, next_answer, later_answers}
use todo_api.Config.{Settings}
use todo_api.Platform.{Platform}
use todo_api.Repositories.User.{save_user}
use todo_api.Services.Accounts.{
  PendingEmailVerification, request_email_verification, normalize_email, with_token,
  is_cooling_down,
}

find-update :
    (q r : User → Bool) (x : User) (rows : List User) (u : User)
    → find? q rows ≡ some u
    → r u ≡ true
    → q x ≡ true
    → find? q (update_where r (λ _. x) rows) ≡ some x
find-update q r x [] u found here fits = absurd (ground arith)
find-update q r x (y ∷ ys) u found here fits = elim (Bool-cases (r y)) [
  | inl hit ↦ simp (hit, fits) refl
  | inr miss ↦ elim (Bool-cases (q y)) [
    | inl first ↦ let e : y ≡ u = ground arith in absurd (ground (arith, ap r e))
    | inr other ↦ simp (miss, other) (find-update q r x ys u (rw other at found) here fits)
  ]
]

-- Whether the service hands out a token to mail.
abbrev pub gives_token : Result (Option PendingEmailVerification) → Bool
gives_token (ok (some pending)) = true
gives_token _ = false

-- The account of a request that gives a token, and what it stores.
record IsMailed (p : Platform) (settings : Settings) (email token : String) (now : ℕ)
    (db db' : Tables) : Type 0 where
  holder : User
  found : find? (λ u. u.email == normalize_email p email) db.users ≡ some holder
  unverified : is_email_verified holder ≡ false
  stores : db' ≡ save_user (with_token p settings token now holder) db

request-IsMailed :
    (p : Platform) (settings : Settings) (email token : String) (now : ℕ)
    (answers : List (Option SqlError)) (db : Tables)
    → gives_token (run (request_email_verification p settings email token now) answers db).0 ≡ true
    → IsMailed p settings email token now db
        (run (request_email_verification p settings email token now) answers db).1
unfolding request_email_verification
request-IsMailed p settings email token now answers db h =
    elim (Option-cases (next_answer answers)) [
      | inr (e, failed) ↦ absurd (ground arith)
      | inl answered ↦
          elim (Option-cases (find? (λ u. u.email == normalize_email p email) db.users)) [
            | inl nobody ↦ absurd (ground arith)
            | inr (u, found) ↦ elim (Bool-cases (is_email_verified u)) [
              | inl already ↦ absurd (ground arith)
              | inr unverified ↦ elim (Bool-cases (is_cooling_down settings now u)) [
                | inl cooling ↦ absurd (ground arith)
                | inr cool ↦ elim (Option-cases (next_answer (later_answers answers))) [
                  | inr (e, failed) ↦ absurd (ground arith)
                  | inl stored ↦ record {
                    holder = u;
                    found = found;
                    unverified = unverified;
                    stores = ground arith;
                  }
                ]
              ]
            ]
          ]
    ]

-- A request for an account whose last one is recent gives no token and stores nothing.
cooling-request :
    (p : Platform) (settings : Settings) (email token : String) (now : ℕ)
    (answers : List (Option SqlError)) (db : Tables) (u : User)
    → find? (λ u. u.email == normalize_email p email) db.users ≡ some u
    → is_cooling_down settings now u ≡ true
    → let out = run (request_email_verification p settings email token now) answers db in
      (gives_token out.0 ≡ false) × (out.1 ≡ db)
unfolding request_email_verification
cooling-request p settings email token now answers db u found cooling =
    elim (Option-cases (next_answer answers)) [
      | inr (e, failed) ↦ (ground arith, ground arith)
      | inl answered ↦ elim (Bool-cases (is_email_verified u)) [
        | inl already ↦ (ground arith, ground arith)
        | inr unverified ↦ (ground arith, ground arith)
      ]
    ]

-- A second request for the same address, served on the tables that a request which gave a token to mail
-- has left, gives no token and changes no table until the cooldown of the settings is over, whatever
-- the database answers. Nothing else has written to the tables in between.
pub request_email_verification-cooldown :
    (p : Platform) (settings : Settings) (email email' token token' : String) (now later : ℕ)
    (answers answers' : List (Option SqlError)) (db : Tables)
    → normalize_email p email' ≡ normalize_email p email
    → later < now + settings.email_verification_resend_cooldown
    → let db' = (run (request_email_verification p settings email token now) answers db).1 in
      gives_token (run (request_email_verification p settings email token now) answers db).0 ≡ true
      → let out = run (request_email_verification p settings email' token' later) answers' db' in
        (gives_token out.0 ≡ false) × (out.1 ≡ db')
request_email_verification-cooldown p settings email email' token token' now later answers answers'
      db same early given =
    let db' = (run (request_email_verification p settings email token now) answers db).1 in
    let w = request-IsMailed p settings email token now answers db given in
    let u = with_token p settings token now w.holder in
    let fits = find?-meets (λ x. x.email == normalize_email p email) db.users w.holder w.found in
    let has : find? (λ x. x.email == normalize_email p email) db'.users ≡ some u =
      ap (λ (d : Tables). find? (λ x. x.email == normalize_email p email) d.users) w.stores
      ∙ find-update (λ x. x.email == normalize_email p email) (λ r. r.id == u.id) u db.users
          w.holder w.found (ground arith) fits in
    cooling-request p settings email' token' later answers' db' u
      (subst (λ e. find? (λ x. x.email == e) db'.users ≡ some u) (sym same) has) (ground arith)
