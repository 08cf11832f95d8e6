-- ===== src/Models.antt =====
-- models/*.py: the rows of the five tables, with the methods of their classes. Times are counted in
-- microseconds on one UTC clock; identifiers are positive numbers.
pub mod Todo
pub mod User
pub mod RefreshSession
pub mod OauthAuthorizationCode
pub mod ApiKey
