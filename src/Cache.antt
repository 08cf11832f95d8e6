-- ===== src/Cache.antt =====
-- core/cache.py: the keys of cached reads, what a write clears, and the headers that keep a cached
-- response out of shared caches. The store behind `FastAPICache` is a library's.
pub mod Keys
pub mod Tests
use todo_api.Base.{
  ℕ, String, Bool, true, false, ◌||◌, ◌==◌, nat_eq, string_eq, Option, none, some, is_some, List,
  [], ◌∷◌, ◌++◌, map, filter, not, if◌then◌else◌,
}
use todo_api.Text.{◌<>◌}
use todo_api.Text.Decimal.{show}
use todo_api.Exceptions.{value_error}
use todo_api.Results.{Result, ok, err}
use todo_api.Platform.{Platform}
use todo_api.Services.Todo.{TodoListQuery}

abbrev pub todo_cache_namespace : String
todo_cache_namespace = "todos"

abbrev pub cache_status_header : String
cache_status_header = "X-FastAPI-Cache"

-- What tells the reads of one user apart.
pub record KeyData : Type 0 where
  pub endpoint : String
  pub query : Option TodoListQuery
  pub todo_id : Option ℕ

-- `f"{namespace}:user:{user_id}"`
abbrev pub user_namespace : String → ℕ → String
user_namespace namespace user_id = namespace <> ":user:" <> show user_id

-- `user_id` is the `id` of the `current_user`, if it is a number; `dumps` writes the sorted JSON of the
-- data.
unfoldable pub todo_cache_key_builder :
    Platform → (KeyData → String) → String → Option ℕ → KeyData → Result String
todo_cache_key_builder p dumps namespace none key_data = err value_error
todo_cache_key_builder p dumps namespace (some user_id) key_data =
    if user_id == 0
    then err value_error
    else ok (user_namespace namespace user_id <> ":" <> p.sha256_hexdigest (dumps key_data))

-- The namespace that `invalidate_todo_cache` clears; a failure of that call is only logged.
unfoldable pub cleared_namespace : ℕ → String
cleared_namespace user_id = user_namespace todo_cache_namespace user_id

-- Starlette's `MutableHeaders` over a type of headers.
pub record MutableHeaders (H : Type 0) : Type 0 where
  pub get : String → H → Option String
  pub set : String → String → H → H
  pub delete : String → H → H
  pub add_vary_header : String → H → H

module _ {H : Type 0} (m : MutableHeaders H) where
  -- What `PrivateCacheHeadersMiddleware` makes of the headers that start a response.
  unfoldable pub send_private_cache_headers : H → H
  send_private_cache_headers headers =
      if is_some (m.get cache_status_header headers)
      then m.add_vary_header "Cookie" (
          m.add_vary_header "Authorization" (
            let private = m.set "Cache-Control" "private, no-store" headers in
            if is_some (m.get "ETag" private) then m.delete "ETag" private else private))
      else headers
