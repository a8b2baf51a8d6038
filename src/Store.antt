-- ===== src/Store.antt =====
-- The database: the tables, a session, and the repositories.
pub mod Rows
pub mod Session
pub mod Persons
pub mod Faces
pub mod Accounts
pub mod Search
pub mod Keeps
pub mod Data
pub mod Mirror
pub mod Ranking
mod Tests
