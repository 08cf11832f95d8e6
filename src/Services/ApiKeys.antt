-- ===== src/Services/ApiKeys.antt =====
-- services/api_key.py: the API keys of a user.
use todo_api.Base.{
  ℕ, String, ◌≡◌, arith, Bool, true, false, not, ◌&&◌, ◌==◌, nat_eq, string_eq, Option, none, some,
  List, find?, if◌then◌else◌, Option-cases, Bool-cases, inl, inr, ◌⊎◌,
}
use todo_api.Exceptions
use todo_api.Exceptions.{SqlError}
use todo_api.Exceptions.ApiKey.{
  api_key_creation_unavailable, api_key_list_unavailable, api_key_revocation_unavailable,
  api_key_not_found,
}
use todo_api.Models.ApiKey.{ApiKey}
use todo_api.Results.{is_ok}
use todo_api.Database.{
  Tables, Action, ◌>>=◌, ◌>>◌, pure, raise, modify, commit, except_sql, run, next_answer,
  later_answers,
}
use todo_api.Platform.{Platform}
use todo_api.Tokens.{hash_secret}
use todo_api.Repositories.Todo.{Inserted}
use todo_api.Repositories.ApiKey.{
  create_api_key_record, list_user_api_keys, get_user_api_key_by_id, save_api_key,
}

-- The stored key, and its plain text, which is given once.
pub record ApiKeyCreated : Type 0 where
  pub key : ApiKey
  pub api_key : String

-- `raw_key` is what `generate_api_key` draws.
unfoldable pub issue : Platform → Inserted → ℕ → String → String → Action ApiKeyCreated
unfolding create_api_key_record
issue p ins user_id name raw_key =
    except_sql
      (do
        key ← create_api_key_record ins user_id name (hash_secret p raw_key)
        commit
        pure (record { key = key; api_key = raw_key }))
      (Exceptions.api_key api_key_creation_unavailable)

pub list : (List ApiKey → List ApiKey) → ℕ → Bool → Action (List ApiKey)
unfolding list_user_api_keys
list newest_first user_id include_revoked =
    except_sql (list_user_api_keys newest_first user_id include_revoked)
      (Exceptions.api_key api_key_list_unavailable)

abbrev pub revoked : ApiKey → ApiKey
revoked k = record k { is_active = false }

abbrev pub revoke_found : Option ApiKey → Action (Unit {0})
revoke_found none = raise (Exceptions.api_key api_key_not_found)
revoke_found (some k) =
    if not k.is_active then pure tt else (do modify (save_api_key (revoked k)); commit)

unfoldable pub revoke : ℕ → ℕ → Action (Unit {0})
unfolding get_user_api_key_by_id
revoke user_id api_key_id =
    except_sql (do found ← get_user_api_key_by_id user_id api_key_id; revoke_found found)
      (Exceptions.api_key api_key_revocation_unavailable)

-- A revocation changes nothing but keys of the caller: what it stores is the table that it found, or
-- that table with one key, found under the given identifier among the keys of that user, made inactive.
pub revoke-cases :
    (user_id api_key_id : ℕ) (answers : List (Option SqlError)) (db : Tables)
    → let out = run (revoke user_id api_key_id) answers db in
      (out.1 ≡ db)
      ⊎ ((k : ApiKey) × (find? (λ k. k.user_id == user_id && k.id == api_key_id) db.api_keys
            ≡ some k)
          × (out.1 ≡ save_api_key (record k { is_active = false }) db)
          × (is_ok out.0 ≡ true))
unfolding revoke get_user_api_key_by_id
revoke-cases user_id api_key_id answers db = elim (Option-cases (next_answer answers)) [
  | inr (e, failed) ↦ inl (ground arith)
  | inl answered ↦
      elim (Option-cases (find? (λ k. k.user_id == user_id && k.id == api_key_id) db.api_keys)) [
        | inl missing ↦ inl (ground arith)
        | inr (k, found) ↦ elim (Bool-cases k.is_active) [
          | inr off ↦ inl (ground arith)
          | inl on ↦ elim (Option-cases (next_answer (later_answers answers))) [
            | inr (e, failed) ↦ inl (ground arith)
            | inl stored ↦ inr (k, found, ground arith, ground arith)
          ]
        ]
      ]
]
