-- ===== src/Services.antt =====
-- services/*.py: the use cases, each over a session of the database.
pub mod Todo
pub mod Sessions
pub mod Accounts
pub mod OauthFlow
pub mod ApiKeys
pub mod Users
pub mod Email
