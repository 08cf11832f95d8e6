-- ===== src/Exceptions.antt =====
-- exceptions/*.py as one type: the errors of the five files that have several classes, the two
-- that stand alone, and what the libraries under the program raise.
pub mod Auth
pub mod Oauth
pub mod Todo
pub mod User
pub mod ApiKey
pub mod Handlers
pub mod Challenge
use todo_api.Base.{String, Option}
use Auth.{AuthError}
use Oauth.{OauthError}
use Todo.{TodoError}
use User.{UserError}
use ApiKey.{ApiKeyError}

-- `ApplicationError` and the classes below it.
pub data ApplicationError : Type 0 where
  application : ApplicationError
  auth : AuthError → ApplicationError
  oauth : OauthError → ApplicationError
  todo : TodoError → ApplicationError
  user : UserError → ApplicationError
  api_key : ApiKeyError → ApplicationError
  email_service_unavailable : ApplicationError

-- `IntegrityError` with the name of the constraint, where the driver reports one, or any other
-- `SQLAlchemyError`.
pub data SqlError : Type 0 where
  integrity_error : Option String → SqlError
  other_sql_error : SqlError

-- What an operation of the program may raise.
pub data Raised : Type 0 where
  app : ApplicationError → Raised
  sql : SqlError → Raised
  value_error hashing_error unknown_hash_error : Raised
