-- ===== src/Repositories.antt =====
-- repositories/*.py: the queries on each table.
pub mod Todo
pub mod User
pub mod RefreshSession
pub mod Oauth
pub mod ApiKey
