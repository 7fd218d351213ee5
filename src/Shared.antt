-- ===== src/Shared.antt =====
-- shared/src/shared: the library that every service imports.
pub mod Exceptions
pub mod Host
pub mod Json
pub mod Events
pub mod Consumer
pub mod Cache
pub mod Jwt
pub mod ServiceToken
pub mod Middleware
pub mod Identity
mod Tests
