-- ===== src/Repositories/ApiKey.antt =====
-- repositories/api_key.py: the queries on the table of API keys.
use todo_api.Base.{
  ℕ, String, Bool, true, ◌&&◌, ◌||◌, ◌==◌, nat_eq, string_eq, Option, none, some, find?, filter,
  update_where, List, [], ◌∷◌, ◌++◌,
}
use todo_api.Models.ApiKey.{ApiKey}
use todo_api.Models.User.{User}
use todo_api.Database.{Tables, Action, ◌>>◌, pure, gets, modify, call}
use todo_api.Repositories.Todo.{Inserted}

unfoldable pub create_api_key_record : Inserted → ℕ → String → String → Action ApiKey
create_api_key_record ins user_id name key_hash =
    let row : ApiKey = record {
      id = ins.id;
      user_id = user_id;
      name = name;
      key_hash = key_hash;
      is_active = true;
      created_at = ins.now;
    } in
    do modify (λ db. record db { api_keys = db.api_keys ++ row ∷ [] }); call; pure row

-- The key with its user, by an inner join on the foreign key.
abbrev with_user : List User → Option ApiKey → Option (ApiKey × User)
with_user users none = none
with_user users (some k) = elim (find? (λ u. u.id == k.user_id) users) [
  | none ↦ none
  | some u ↦ some (k, u)
]

-- The join is an outer one; a key without its user, which the foreign key excludes, is not found here.
unfoldable pub get_active_api_key_by_hash : String → Action (Option (ApiKey × User))
get_active_api_key_by_hash key_hash = do
  call
  gets (λ db. with_user db.users (find? (λ k. k.key_hash == key_hash && k.is_active) db.api_keys))

-- The keys that a user sees, in the order in which `newest_first`, PostgreSQL's sort, puts them.
unfoldable pub list_user_api_keys : (List ApiKey → List ApiKey) → ℕ → Bool → Action (List ApiKey)
list_user_api_keys newest_first user_id include_revoked = do
  call
  gets (λ db.
      newest_first
        (filter (λ k. k.user_id == user_id && (include_revoked || k.is_active)) db.api_keys))

unfoldable pub get_user_api_key_by_id : ℕ → ℕ → Action (Option ApiKey)
get_user_api_key_by_id user_id api_key_id = do
  call
  gets (λ db. find? (λ k. k.user_id == user_id && k.id == api_key_id) db.api_keys)

abbrev pub save_api_key : ApiKey → Tables → Tables
save_api_key k db = record db { api_keys = update_where (λ r. r.id == k.id) (λ _. k) db.api_keys }
