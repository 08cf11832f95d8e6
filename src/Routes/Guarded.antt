-- ===== src/Routes/Guarded.antt =====
-- api/deps.py: a request with what the libraries read from it, and the dependencies that a route which
-- changes data runs before its own code.
pub mod Admitted
use todo_api.Base.{ℕ, String, Option, List}
use todo_api.Models.User.{User}
use todo_api.Database.{Action, ◌>>=◌, ◌>>◌, lift}
use todo_api.Config.{Settings}
use todo_api.Platform.{Platform}
use todo_api.Dependencies.{get_current_user}
use todo_api.Dependencies.Browser.{
  Request, validate_request_origin, require_csrf_token, access_cookie_name,
}

-- `token` is what the route's security scheme reads from the `Authorization` header, `csrf_header` the
-- value of `X-CSRF-Token`, and `now` the time of the authentication.
pub record Call : Type 0 where
  pub request : Request
  pub token : Option String
  pub csrf_header : Option String
  pub now : ℕ

-- `record_activity`, without its metadata, as the task that runs behind the response.
pub record Activity : Type 0 where
  pub event : String
  pub user_id : ℕ
  pub resource_type : String
  pub resource_id : ℕ

-- What a route answers, the cache namespaces that it clears and the tasks that it adds.
pub record Reply (A : Type 0) : Type 0 where
  pub body : A
  pub cleared : List String
  pub activities : List Activity

-- `CurrentUser` and `CurrentBearerUser`
abbrev pub current_user : Platform → Settings → Call → Action User
current_user p settings call =
    get_current_user p settings call.token (call.request.cookie access_cookie_name) call.now

-- `_BROWSER_WRITE_DEPENDENCIES`, then the user.
abbrev pub writing_user : Platform → Settings → Call → Action User
writing_user p settings call = do
  lift (validate_request_origin p settings call.request)
  lift (require_csrf_token p call.csrf_header call.request)
  current_user p settings call
