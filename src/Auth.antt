-- ===== src/Auth.antt =====
-- services/auth-service: users, sessions and the onboarding of a new account.
pub mod Models
pub mod Db
pub mod App
pub mod Tokens
pub mod Login
pub mod Refresh
pub mod Logout
pub mod Users
pub mod Validate
pub mod Registry
pub mod Avatars
pub mod Onboarding
pub mod Controller
pub mod Schemas
pub mod Router
pub mod Service
pub mod Tests
