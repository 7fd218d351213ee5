-- ===== src/Gateway.antt =====
-- services/api-gateway: the checks, the routing and the forwarding of a client's request.
pub mod Routes
pub mod Guard
pub mod RateLimit
pub mod Proxy
pub mod Media
pub mod Docs
pub mod Controller
pub mod Tests
