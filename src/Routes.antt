-- ===== src/Routes.antt =====
-- api/v1/routes: the endpoints, each with the dependencies that FastAPI runs before it. Paths, the
-- validation of requests that Schemas and Forms do not have, the schemas of responses and the
-- documentation of errors are left out.
pub mod Forms
pub mod LoginPage
pub mod Oauth
pub mod Guarded
pub mod Todos
pub mod Auth
pub mod Accounts
pub mod Mail
pub mod Tests
