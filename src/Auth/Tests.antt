-- ===== src/Auth/Tests.antt =====
-- A small auth service, and the theorems at work on it.
pub mod Setup
mod Sessions
mod Replies
mod Tokens
mod Tenants
mod Waiter
