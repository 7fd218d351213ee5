-- ===== src/Tenant.antt =====
-- services/tenant-service: the tenant of a new account.
pub mod Slug
pub mod Onboarding
pub mod Domains
mod Tests
