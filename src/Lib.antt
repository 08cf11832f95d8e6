-- ===== src/Lib.antt =====
-- A todo service: an HTTP API over PostgreSQL with accounts, login sessions, an OAuth authorization
-- code flow, API keys and todos. The modelled code is that under src/todo_api.
--
-- The services (src/todo_api/services) hold the use cases. They read and write rows (models) by
-- queries (repositories) in a session of the database, make and read tokens (core/security.py), and
-- raise application errors (exceptions), which the handlers (api/exception_handlers.py) turn into
-- responses. Requests are authenticated by the dependencies (api/deps.py). Periodic jobs
-- (background/maintenance.py) clean the tables.
--
-- Base, Base/*: lists as tables, Boolean tests. Text, Text/*: the string operations of Python that
-- the program calls. Results: results of code that may raise.
-- Exceptions, Exceptions/*: the error classes as one type, and the table of responses.
-- Config: the settings that the modelled code reads. Times are microseconds since 1970, and so are
-- spans of time.
-- Platform: what the program takes from libraries (SHA-256, PyJWT, pwdlib, the mappings of Unicode,
-- percent-encoding), as a record of functions, and the documented behaviour of PyJWT that the
-- lemmas on tokens use. Platform/Sample is an instance.
-- Tokens, Tokens/*: core/security.py and schemas/token.py.
-- Models, Models/*: the rows of the tables with their methods.
-- Database: the tables, and an action over a session of them. A session works on a copy of the
-- tables, which `commit` stores. Each call that reaches the server takes the next of a list of
-- answers, which is an error of SQLAlchemy or success: a theorem over all lists of answers covers
-- every failure at every call. An action that ends in an error stores nothing that it has not
-- committed.
-- Repositories, Repositories/*: the queries. ILIKE and ORDER BY of the server are parameters.
-- Services/Todo: services/todo.py. Services/Sessions and Services/Accounts: services/auth.py.
-- Services/OauthFlow: services/oauth.py. Services/ApiKeys: services/api_key.py.
-- Services/Users: services/user.py. Services/Email: services/email.py.
-- Maintenance: background/maintenance.py.
-- Dependencies: api/deps.py, with the checks against forged requests in Dependencies/Browser.
-- Cookies: core/cookies.py. Cache: core/cache.py. Dispatch: background/dispatch.py.
-- Emails: utils/email.py. Emails/Tasks: background/tasks/email.py.
-- Schemas: the validators of schemas/todo.py.
-- Config/Validators: the validators of core/config.py.
-- Routes/*: the endpoints of api/v1/routes, composed of the dependencies and the services: Forms
-- (the parameters of OAuth requests, with schemas/oauth.py), LoginPage and Oauth (oauth.py),
-- Guarded and Todos (todos.py), Auth (auth.py), Accounts (users.py and api_key.py), Mail
-- (email.py). What a route hands to the cache, the queue or the log is part of its result.
-- Samples, Tests and the modules named Tests: concrete inputs.
--
-- The clock and random values are arguments: one reading of the clock serves a call of a service,
-- and the moment at which a new token is read back is an argument of its own. Requests are served
-- one after another; what a concurrent request may do in between is seen as an answer of the
-- server, such as the violation of a constraint. The walk up the error classes has fuel for the
-- four levels that there are, and the printing of a number has more fuel than the number.
-- What pydantic strips from a text is what Python strips; U+001C to U+001F, which pydantic keeps, go
-- as well. What the broker of the mails raises is a value, which the dispatch catches.
--
-- Not modelled: the validation of the other schemas, the delivery of mails by SMTP, the store
-- behind the cache, the scheduling of background work, logging and metrics, migrations and
-- scripts, which are calls of libraries for the most part.
pub mod Base
pub mod Text
pub mod Exceptions
pub mod Results
pub mod Config
pub mod Platform
pub mod Tokens
pub mod Models
pub mod Database
pub mod Repositories
pub mod Services
pub mod Maintenance
pub mod Dependencies
pub mod Cookies
pub mod Cache
pub mod Emails
pub mod Schemas
pub mod Dispatch
pub mod Routes
pub mod Samples
pub mod Tests
