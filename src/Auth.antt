-- ===== src/Auth.antt =====
-- internal/module/auth and internal/module/user: accounts, access tokens and refresh tokens.
pub mod Data
pub mod Repositories
pub mod Token
pub mod Service
pub mod Sessions
pub mod Once
pub mod Accounts
pub mod Login
mod Tests
