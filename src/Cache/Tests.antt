-- ===== src/Cache/Tests.antt =====
-- The keys of the cache at a concrete read.
use todo_api.Base.{ℕ, ◌≡◌, refl, Option, none, some}
use todo_api.Text.Decimal.{show}
use todo_api.Results.{ok}
use todo_api.Cache.{KeyData, todo_cache_key_builder}
use todo_api.Cache.Keys.{todo_cache_key_builder-owner}
use todo_api.Samples.{plain_platform}

abbrev read_one : KeyData
read_one = record { endpoint = "get_todo"; query = none; todo_id = some 1 }

abbrev read_two : KeyData
read_two = record { endpoint = "get_todo"; query = none; todo_id = some 2 }

key_of_seven :
    todo_cache_key_builder plain_platform (λ d. d.endpoint) "todo-api:todos" (some 7) read_one
    ≡ ok "todo-api:todos:user:7:get_todo"
unfolding todo_cache_key_builder show
key_of_seven = refl

other_key_of_seven :
    todo_cache_key_builder plain_platform (λ d. d.endpoint) "todo-api:todos" (some 7) read_two
    ≡ ok "todo-api:todos:user:7:get_todo"
unfolding todo_cache_key_builder show
other_key_of_seven = refl

abbrev seven : Option ℕ
seven = some 7

todo_cache_key_builder-owner_example : seven ≡ seven
todo_cache_key_builder-owner_example =
    todo_cache_key_builder-owner plain_platform (λ d. d.endpoint) "todo-api:todos" seven seven
      read_one read_two "todo-api:todos:user:7:get_todo" key_of_seven other_key_of_seven
