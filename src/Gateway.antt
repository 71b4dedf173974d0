-- ===== src/Gateway.antt =====
-- The gateway (services/api-gateway/app).
pub mod Errors
pub mod Requests
pub mod Security
pub mod RateLimit
pub mod Routing
pub mod Proxy
pub mod Json
pub mod BrowserAuth
