-- ===== src/Files.antt =====
-- services/files-service: avatars, in an object store and a table of their own.
pub mod Models
pub mod Config
pub mod Storage
pub mod Manager
pub mod Auth
pub mod Routers
mod Tests
