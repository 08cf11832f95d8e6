-- ===== src/Dependencies/Keys.antt =====
-- The life of an API key, from its issue over its use to its revocation.
use todo_api.Base.{
  ℕ, String, ◌≡◌, ◌≢◌, ◌≤◌, refl, sym, ap, ◌∙◌, arith, Bool, true, false, ◌&&◌, Option, none, some,
  List, [], ◌∷◌, ◌++◌, find?, find?-count, count_where, count-taken, update_where, Option-cases,
  Bool-cases, inl, inr, ◌==◌, nat_eq, string_eq, eq_iff,
}
use todo_api.Text.{strip, is_empty}
use todo_api.Exceptions.{SqlError}
use todo_api.Models.User.{User, is_email_verified}
use todo_api.Models.ApiKey.{ApiKey}
use todo_api.Results.{is_ok, Result-cases}
use todo_api.Database.{Tables, ok, run, next_answer, later_answers}
use todo_api.Platform.{Platform}
use todo_api.Tokens.{hash_secret}
use todo_api.Repositories.Todo.{Inserted}
use todo_api.Repositories.ApiKey.{
  get_user_api_key_by_id, get_active_api_key_by_hash, create_api_key_record, save_api_key,
}
use todo_api.Services.ApiKeys.{issue, revoke}
use todo_api.Dependencies.{authenticate_api_key}
use todo_api.Dependencies.Access.{authenticate_api_key-admits}

-- The active key that a hash finds.
abbrev opens : String → ApiKey → Bool
opens key_hash k = k.key_hash == key_hash && k.is_active

find?-append :
    (q : ApiKey → Bool) (xs : List ApiKey) (x : ApiKey)
    → find? q xs ≡ none
    → q x ≡ true
    → find? q (xs ++ x ∷ []) ≡ some x
find?-append q [] x unknown fits = rw fits
find?-append q (y ∷ xs) x unknown fits = elim (Bool-cases (q y)) [
  | inl hit ↦ absurd (ground arith)
  | inr miss ↦ simp miss (find?-append q xs x (rw miss at unknown) fits)
]

opened :
    (p : Platform) (raw_key : String) (db : Tables) (k : ApiKey) (u : User)
    → strip raw_key ≡ raw_key
    → is_empty raw_key ≡ false
    → find? (opens (hash_secret p raw_key)) db.api_keys ≡ some k
    → find? (λ x. x.id == k.user_id) db.users ≡ some u
    → u.is_active ≡ true
    → is_email_verified u ≡ true
    → (run (authenticate_api_key p (some raw_key)) [] db).0 ≡ ok u
unfolding authenticate_api_key get_active_api_key_by_hash next_answer later_answers
opened p raw_key db k u trimmed nonempty found stored active confirmed =
    simp (trimmed, nonempty, found, stored, active, confirmed)

-- A key that was issued, with no call failing, opens the account that it was issued for: where the key
-- has no white space at its ends and is not empty, no active key had its hash, and the account is
-- stored, active and confirmed.
pub authenticate_api_key-issue :
    (p : Platform) (ins : Inserted) (name raw_key : String) (db : Tables) (u : User)
    → strip raw_key ≡ raw_key
    → is_empty raw_key ≡ false
    → find? (λ k. k.key_hash == hash_secret p raw_key && k.is_active) db.api_keys ≡ none
    → find? (λ x. x.id == u.id) db.users ≡ some u
    → u.is_active ≡ true
    → is_email_verified u ≡ true
    → let issued = run (issue p ins u.id name raw_key) [] db in
      (is_ok issued.0 ≡ true) × ((run (authenticate_api_key p (some raw_key)) [] issued.1).0 ≡ ok u)
unfolding issue create_api_key_record next_answer later_answers
authenticate_api_key-issue p ins name raw_key db u trimmed nonempty unknown stored active
      confirmed =
    let row : ApiKey = record {
      id = ins.id;
      user_id = u.id;
      name = name;
      key_hash = hash_secret p raw_key;
      is_active = true;
      created_at = ins.now;
    } in
    let found : find? (opens (hash_secret p raw_key)) (db.api_keys ++ row ∷ []) ≡ some row =
      find?-append (opens (hash_secret p raw_key)) db.api_keys row unknown
        (rw ((eq_iff (hash_secret p raw_key) (hash_secret p raw_key)).1 refl)) in
    (
      refl,
      opened p raw_key (record db { api_keys = db.api_keys ++ row ∷ [] }) row u trimmed nonempty
          found stored active confirmed,
    )

revoke-stores :
    (user_id api_key_id : ℕ) (answers : List (Option SqlError)) (db : Tables) (k : ApiKey)
    → find? (λ k. k.user_id == user_id && k.id == api_key_id) db.api_keys ≡ some k
    → k.is_active ≡ true
    → (run (revoke user_id api_key_id) answers db).0 ≡ ok tt
    → (run (revoke user_id api_key_id) answers db).1
      ≡ save_api_key (record k { is_active = false }) db
unfolding revoke get_user_api_key_by_id
revoke-stores user_id api_key_id answers db k found active done =
    elim (Option-cases (next_answer answers)) [
      | inr (e, failed) ↦ absurd (ground arith)
      | inl answered ↦ elim (Option-cases (next_answer (later_answers answers))) [
        | inr (e, failed) ↦ absurd (ground arith)
        | inl stored ↦ ground arith
      ]
    ]

none-ne-some : {k : ApiKey} → none ≢ some k
none-ne-some e = cc

-- Where one active key at most has the hash, a key that its owner has revoked opens nothing from then
-- on, also with other white space around it, at any time and with any failures of the database.
pub authenticate_api_key-revoke :
    (p : Platform) (user_id api_key_id : ℕ) (raw_key : String)
    (answers later_answers : List (Option SqlError)) (db : Tables) (k : ApiKey)
    → count_where (λ k. k.key_hash == hash_secret p (strip raw_key) && k.is_active) db.api_keys ≤ 1
    → find? (λ k. k.user_id == user_id && k.id == api_key_id) db.api_keys ≡ some k
    → k.key_hash ≡ hash_secret p (strip raw_key)
    → k.is_active ≡ true
    → (run (revoke user_id api_key_id) answers db).0 ≡ ok tt
    → is_ok
        (run
          (authenticate_api_key p (some raw_key))
          later_answers
          (run (revoke user_id api_key_id) answers db).1).0
      ≡ false
authenticate_api_key-revoke p user_id api_key_id raw_key answers later_answers db k one found same
      active done =
    let has = opens (hash_secret p (strip raw_key)) in
    let db' = (run (revoke user_id api_key_id) answers db).1 in
    let stores : db' ≡ save_api_key (record k { is_active = false }) db =
      revoke-stores user_id api_key_id answers db k found active done in
    let k_opens : has k ≡ true =
      ground (arith, eq_iff k.key_hash (hash_secret p (strip raw_key))) in
    let cleared : count_where has
          (update_where (λ r. r.id == k.id) (λ _. record k { is_active = false }) db.api_keys)
        ≡ 0 =
      count-taken has (λ r. r.id == k.id) (λ _. record k { is_active = false })
        (λ r h. ground arith) (λ k. k.user_id == user_id && k.id == api_key_id) db.api_keys k one
        found k_opens (ground arith) in
    let missing : find? has db'.api_keys ≡ none =
      find?-count has db'.api_keys (ap (λ d. count_where has d.api_keys) stores ∙ cleared) in
    elim (Result-cases (run (authenticate_api_key p (some raw_key)) later_answers db').0) [
      | inr (e, refused) ↦ ap is_ok refused
      | inl (u, entered) ↦
          let (k', found', _, _, _) =
            authenticate_api_key-admits p (some raw_key)
              (record { db = db'; stored = db'; answers = later_answers }) u entered in
          absurd (none-ne-some (sym missing ∙ found'))
    ]
