-- ===== src/Database.antt =====
-- db/session.py, and the calls that the program makes of SQLAlchemy's `AsyncSession`.
--
-- A session works on a copy of the tables, and `commit` makes that copy the stored one. Every call
-- that reaches the server may raise a `SQLAlchemyError`: the session carries the list of what the
-- server will answer, `none` where the call succeeds (also past the list's end). A theorem over all
-- sessions so covers every failure at every call. After an error the request ends and the session
-- is rolled back, so that only `stored` counts.
use todo_api.Base.{Bool, Option, none, some, List, [], ◌∷◌, if◌then◌else◌}
use todo_api.Models.Todo.{Todo}
use todo_api.Models.User.{User}
use todo_api.Models.RefreshSession.{RefreshSession}
use todo_api.Models.OauthAuthorizationCode.{OauthAuthorizationCode}
use todo_api.Models.ApiKey.{ApiKey}
pub use todo_api.Results.{Result, ok, err}
use todo_api.Exceptions.{ApplicationError, SqlError, app, sql}

pub record Tables : Type 0 where
  pub users : List User
  pub todos : List Todo
  pub refresh_sessions : List RefreshSession
  pub oauth_authorization_codes : List OauthAuthorizationCode
  pub api_keys : List ApiKey

pub record Session : Type 0 where
  pub db : Tables
  pub stored : Tables
  pub answers : List (Option SqlError)

abbrev pub Action : Type 0 → Type 0
Action A = Session → Result A × Session

module _ {A : Type 0} where
  abbrev pub pure : A → Action A
  pure a s = (ok a, s)

  abbrev pub raise : ApplicationError → Action A
  raise e s = (err (app e), s)

  abbrev pub gets : (Tables → A) → Action A
  gets f s = (ok (f s.db), s)

infixl 5 ◌>>=◌ ◌>>◌
abbrev pub ◌>>=◌ : {A B : Type 0} → Action A → (A → Action B) → Action B
◌>>=◌ m f s = let (r, s') = m s in elim r [ ok a ↦ f a s' | err e ↦ (err e, s') ]

abbrev pub ◌>>◌ : {A B : Type 0} → Action A → Action B → Action B
m >> k = m >>= λ _. k

abbrev pub raise_if : Bool → ApplicationError → Action (Unit {0})
raise_if b e s = (if b then err (app e) else ok tt, s)

abbrev pub modify : (Tables → Tables) → Action (Unit {0})
modify f s = (ok tt, record s { db = f s.db })

-- The server's next answer.
unfoldable pub next_answer : List (Option SqlError) → Option SqlError
next_answer [] = none
next_answer (a ∷ _) = a

unfoldable pub later_answers : List (Option SqlError) → List (Option SqlError)
later_answers [] = []
later_answers (_ ∷ rest) = rest

-- A call that reaches the server: `scalar`, `execute`, `get`, `flush`, `refresh`.
abbrev pub call : Action (Unit {0})
call s =
    let s' : Session = record s { answers = later_answers s.answers } in
    elim (next_answer s.answers) [ none ↦ (ok tt, s') | some e ↦ (err (sql e), s') ]

abbrev pub commit : Action (Unit {0})
commit s =
    let s' : Session = record s { answers = later_answers s.answers } in
    elim (next_answer s.answers) [
      | none ↦ (ok tt, record s' { stored = s.db })
      | some e ↦ (err (sql e), s')
    ]

-- `except SQLAlchemyError as exc: raise … from exc`
abbrev pub translate_sql : {A : Type 0} → ApplicationError → Result A → Result A
translate_sql e (ok a) = ok a
translate_sql e (err (sql _)) = err (app e)
translate_sql e (err other) = err other

abbrev pub except_sql : {A : Type 0} → Action A → ApplicationError → Action A
except_sql m e s = let (r, s') = m s in (translate_sql e r, s')

abbrev pub lift : {A : Type 0} → Result A → Action A
lift r s = (r, s)

-- `get_session`: the handler runs on a fresh session over the stored tables; what it has not
-- committed is lost.
abbrev pub run : {A : Type 0} → Action A → List (Option SqlError) → Tables → Result A × Tables
run m answers db =
    let (r, s) = m (record { db = db; stored = db; answers = answers }) in (r, s.stored)
