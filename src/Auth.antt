-- ===== src/Auth.antt =====
-- internal/auth: accounts, logins and tokens.
pub mod Repository
pub mod Service
pub mod Accounts
pub mod Register
pub mod Consistency
pub mod Login
pub mod Grpc
pub mod Boundary
mod Tests
