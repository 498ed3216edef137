-- ===== src/Auth.antt =====
-- modules/auth: signature login, sessions and token rotation.
pub mod Defs
pub mod Repositories
pub mod Service
pub mod Tokens
pub mod Nonces
pub mod Rotation
pub mod Revocation
pub mod Issue
mod Tests
pub use Defs.*
pub use Repositories.*
