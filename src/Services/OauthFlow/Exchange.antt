-- ===== src/Services/OauthFlow/Exchange.antt =====
-- The exchange of an authorization code: who may make it, and that it happens once.
use todo_api.Base.{
  ℕ, String, ◌≡◌, ◌≤◌, refl, sym, ap, arith, Bool, true, false, Option, some, List, [], ◌∷◌, ◌++◌,
  find?, find?-meets, count-found, subst, ◌∙◌, count-taken, count_where, update_where, is_none,
  none, eq_iff, ◌<◌, Option-cases, Bool-cases, inl, inr, ◌==◌, string_eq, nat_eq, ◌&&◌, ◌⊎◌, ◌+◌,
}
use todo_api.Text.{rstrip_char}
use todo_api.Exceptions.{SqlError}
use todo_api.Models.User.{User}
use todo_api.Models.OauthAuthorizationCode.{OauthAuthorizationCode}
use todo_api.Results.{is_ok}
use todo_api.Database.{Tables, Session, ok, run, next_answer, later_answers}
use todo_api.Config.{Settings}
use todo_api.Platform.{Platform}
use todo_api.Tokens.{TokenResponse, hash_secret}
use todo_api.Tokens.Create.{Nonces}
use todo_api.Repositories.User.{get_user_by_id}
use todo_api.Repositories.Oauth.{Grant, is_consumable, consume_authorization_code}
use todo_api.Services.Sessions.{staged_session}
use todo_api.Services.Sessions.Effects.{stage_login_session-cases}
use todo_api.Services.OauthFlow.{
  TokenRequest, grant_of, exchange_authorization_code, create_s256_code_challenge,
}

-- The codes behind a successful exchange.
abbrev pub consumed : Grant → ℕ → List OauthAuthorizationCode → List OauthAuthorizationCode
consumed g now rows =
    update_where (is_consumable g now) (λ r. record r { consumed_at = some now }) rows

-- A code that is the presented one, issued for the client, the redirect address and the S256 challenge
-- of the verifier that the request brings, and neither expired nor consumed.
pub record IsIssuedFor (p : Platform) (request : TokenRequest) (now : ℕ)
    (code : OauthAuthorizationCode) : Type 0 where
  pub presented : code.code_hash ≡ p.sha256_hexdigest request.code
  pub client : code.client_id ≡ request.client_id
  pub redirect : code.redirect_uri ≡ request.redirect_uri
  -- base64url without its padding by `=`, of code 61
  pub challenge : code.code_challenge ≡ rstrip_char 61 (p.urlsafe_sha256 request.code_verifier)
  pub unexpired : now < code.expires_at
  pub unused : code.consumed_at ≡ none

is_consumable-IsIssuedFor :
    (p : Platform) (request : TokenRequest) (now : ℕ) (code : OauthAuthorizationCode)
    → is_consumable (grant_of p request) now code ≡ true
    → IsIssuedFor p request now code
unfolding hash_secret create_s256_code_challenge
is_consumable-IsIssuedFor p request now code h = record {
  presented = (eq_iff code.code_hash (p.sha256_hexdigest request.code)).0 (ground arith);
  client = (eq_iff code.client_id request.client_id).0 (ground arith);
  redirect = (eq_iff code.redirect_uri request.redirect_uri).0 (ground arith);
  challenge =
      (eq_iff code.code_challenge (rstrip_char 61 (p.urlsafe_sha256 request.code_verifier))).0
        (ground arith);
  unexpired = ground arith;
  unused = elim (Option-cases code.consumed_at) [
    | inl unused ↦ unused
    | inr (at, consumed) ↦ absurd (ground arith)
  ];
}

-- What a successful exchange has found, and what it stores, in one commit.
pub record IsGrantExchange (p : Platform) (settings : Settings) (nonces : Nonces)
    (request : TokenRequest) (now : ℕ) (db : Tables) (t : TokenResponse) (db' : Tables)
    : Type 0 where
  pub code : OauthAuthorizationCode
  pub user : User
  pub expires : ℕ
  pub is_client : request.client_id ≡ settings.oauth2_public_client_id
  pub found :
      find? (is_consumable (grant_of p request) now) db.oauth_authorization_codes ≡ some code
  pub issued : IsIssuedFor p request now code
  pub has_user : find? (λ u. u.id == code.user_id) db.users ≡ some user
  pub active : user.is_active ≡ true
  pub stores : db' ≡ record db {
    oauth_authorization_codes = consumed (grant_of p request) now db.oauth_authorization_codes;
    refresh_sessions =
        db.refresh_sessions
        ++ staged_session p user nonces.session_id t expires
            (now + settings.refresh_session_absolute_ttl)
            now
          ∷ [];
  }

module _ (p : Platform) (settings : Settings) (nonces : Nonces) (request : TokenRequest)
    (now checked_at : ℕ) (s : Session) (clean : s.db ≡ s.stored) where
  -- An exchange has one of two outcomes: it fails and stores nothing, or all of it is stored.
  pub exchange-cases :
      let out = exchange_authorization_code p settings nonces request now checked_at s in
      ((is_ok out.0 ≡ false) × (out.1.stored ≡ s.stored))
      ⊎ ((t : TokenResponse) × (out.0 ≡ ok t)
          × IsGrantExchange p settings nonces request now s.stored t out.1.stored)
  unfolding exchange_authorization_code consume_authorization_code get_user_by_id
  exchange-cases = elim (Bool-cases (request.client_id == settings.oauth2_public_client_id)) [
    | inr other ↦ inl (ground arith, ground arith)
    | inl client ↦ elim (Option-cases (next_answer s.answers)) [
      | inr (e, failed) ↦ inl (ground arith, ground arith)
      | inl answered ↦
          elim (Option-cases
            (find? (is_consumable (grant_of p request) now) s.db.oauth_authorization_codes)) [
              | inl missing ↦ inl (ground arith, ground arith)
              | inr (code, found) ↦ elim (Option-cases (next_answer (later_answers s.answers))) [
                | inr (e, failed) ↦ inl (ground arith, ground arith)
                | inl looked ↦ elim (Option-cases (find? (λ u. u.id == code.user_id) s.db.users)) [
                  | inl nobody ↦ inl (ground arith, ground arith)
                  | inr (u, has_user) ↦ elim (Bool-cases u.is_active) [
                    | inr off ↦ inl (ground arith, ground arith)
                    | inl on ↦
                        let s' : Session = record {
                          stored = s.stored;
                          answers = later_answers (later_answers s.answers);
                          db = record s.db {
                            oauth_authorization_codes =
                                consumed (grant_of p request) now s.db.oauth_authorization_codes;
                          };
                        } in
                        elim (stage_login_session-cases p settings nonces u now checked_at s') [
                          | inl (e, bad) ↦ inl (ground arith, ground arith)
                          | inr (t, expires, staged) ↦
                              elim (Option-cases (next_answer s'.answers)) [
                                | inr (e, failed) ↦ inl (ground arith, ground arith)
                                | inl stored ↦ inr (
                                  t,
                                  ground arith,
                                  record {
                                    code = code;
                                    user = u;
                                    expires = expires;
                                    is_client =
                                        (eq_iff request.client_id
                                            settings.oauth2_public_client_id).0
                                          client;
                                    found = ground arith;
                                    issued = is_consumable-IsIssuedFor p request now code (
                                        find?-meets (is_consumable (grant_of p request) now)
                                          s.db.oauth_authorization_codes code found);
                                    has_user = ground arith;
                                    active = on;
                                    stores = ground arith;
                                  },
                                )
                              ]
                        ]
                  ]
                ]
              ]
            ]
    ]
  ]

-- The codes with that hash that are still to be consumed.
abbrev pub is_open : String → OauthAuthorizationCode → Bool
is_open code_hash r = r.code_hash == code_hash && is_none r.consumed_at

-- A code that no open row has is refused, by whomever it is presented.
exchange-refused :
    (p : Platform) (settings : Settings) (nonces : Nonces) (request : TokenRequest)
    (now checked_at : ℕ) (s : Session)
    → s.db ≡ s.stored
    → count_where (is_open (hash_secret p request.code)) s.db.oauth_authorization_codes ≡ 0
    → let out = exchange_authorization_code p settings nonces request now checked_at s in
      (is_ok out.0 ≡ false) × (out.1.stored ≡ s.stored)
exchange-refused p settings nonces request now checked_at s clean closed =
    elim (exchange-cases p settings nonces request now checked_at s clean) [
      | inl h ↦ h
      | inr (t, done, x) ↦
          let hit =
            find?-meets (is_consumable (grant_of p request) now) s.stored.oauth_authorization_codes
              x.code x.found in
          let open_code : is_open (hash_secret p request.code) x.code ≡ true = ground arith in
          let over : is_open (hash_secret p request.code) x.code ≡ false =
            count-found (is_open (hash_secret p request.code))
              (is_consumable (grant_of p request) now) s.stored.oauth_authorization_codes x.code
              (ap
                  (λ db.
                    count_where (is_open (hash_secret p request.code)) db.oauth_authorization_codes)
                  (sym clean)
                ∙ closed)
              x.found in
          absurd (ground arith)
    ]

-- The tables after the first of two exchanges.
abbrev after_exchange :
    Platform → Settings → Nonces → TokenRequest → ℕ → ℕ → List (Option SqlError) → Tables → Tables
after_exchange p settings nonces request now checked_at answers db =
    (run (exchange_authorization_code p settings nonces request now checked_at) answers db).1

-- Where the key of the table holds (one open row at most has the hash of the code), an authorization
-- code that has been exchanged for tokens is refused from then on, and nothing is stored: whatever
-- client, redirect address and verifier the second request has, and whatever the time.
pub exchange-once :
    (p : Platform) (settings : Settings) (nonces later_nonces : Nonces)
    (request later : TokenRequest) (now checked_at later_now later_checked_at : ℕ)
    (answers later_answers : List (Option SqlError)) (db : Tables) (t : TokenResponse)
    → count_where (is_open (hash_secret p request.code)) db.oauth_authorization_codes ≤ 1
    → (run (exchange_authorization_code p settings nonces request now checked_at) answers db).0
      ≡ ok t
    → later.code ≡ request.code
    → let db' =
        (run (exchange_authorization_code p settings nonces request now checked_at) answers db).1 in
      let out =
        run
          (exchange_authorization_code p settings later_nonces later later_now later_checked_at)
          later_answers
          db' in
      (is_ok out.0 ≡ false) × (out.1 ≡ db')
exchange-once p settings nonces later_nonces request later now checked_at later_now later_checked_at
      answers later_answers db t one done same =
    let db' = after_exchange p settings nonces request now checked_at answers db in
    let s : Session = record { db = db; stored = db; answers = answers } in
    elim (exchange-cases p settings nonces request now checked_at s refl) [
      | inl h ↦ absurd (ground arith)
      | inr (t', done', x) ↦
          let hit =
            find?-meets (is_consumable (grant_of p request) now) db.oauth_authorization_codes x.code
              x.found in
          let open_code : is_open (hash_secret p request.code) x.code ≡ true = ground arith in
          let closed : count_where (is_open (hash_secret p request.code))
                (consumed (grant_of p request) now db.oauth_authorization_codes)
              ≡ 0 =
            count-taken (is_open (hash_secret p request.code))
              (is_consumable (grant_of p request) now) (λ r. record r { consumed_at = some now })
              (λ r h. ground arith) (is_consumable (grant_of p request) now)
              db.oauth_authorization_codes x.code one x.found open_code hit in
          exchange-refused p settings later_nonces later later_now later_checked_at
            (record { db = db'; stored = db'; answers = later_answers }) refl
            (subst (λ c. count_where (is_open (hash_secret p c)) db'.oauth_authorization_codes ≡ 0)
              (sym same)
              (ap
                  (λ d.
                    count_where (is_open (hash_secret p request.code)) d.oauth_authorization_codes)
                  x.stores
                ∙ closed))
    ]

-- An exchange, with whatever failures of the database, either ends in an error and stores nothing, or
-- gives tokens and stores, in one commit, the consumption of the code and the session that goes with
-- the tokens. In the second case the request came from the configured client, and the code was unused
-- and unexpired, and issued for that client, redirect address and the challenge of the presented
-- verifier, to a user who is active.
pub exchange-atomic :
    (p : Platform) (settings : Settings) (nonces : Nonces) (request : TokenRequest)
    (now checked_at : ℕ) (answers : List (Option SqlError)) (db : Tables)
    → let out =
        run (exchange_authorization_code p settings nonces request now checked_at) answers db in
      ((is_ok out.0 ≡ false) × (out.1 ≡ db))
      ⊎ ((t : TokenResponse) × (out.0 ≡ ok t)
          × IsGrantExchange p settings nonces request now db t out.1)
exchange-atomic p settings nonces request now checked_at answers db =
    exchange-cases p settings nonces request now checked_at
      (record { db = db; stored = db; answers = answers }) refl
