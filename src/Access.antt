-- ===== src/Access.antt =====
-- Authentication and authorisation: passwords, tokens, roles and API keys.
pub mod Security
pub mod Accounts
pub mod Guards
pub mod Login
pub mod Keys
mod Tests
