-- ===== src/Flows.antt =====
-- The services together: what one publishes or forwards, and what another makes of it.
pub mod Publishes
pub mod Onboarding
pub mod Identities
pub mod Sessions
mod Unary
mod Tests
