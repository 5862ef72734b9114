-- ===== src/Gateway.antt =====
-- services/api-gateway/src: the in-memory Redis, the rate limiter, authentication and routing.
pub mod MemoryRedis
pub mod RateLimit
pub mod Auth
pub mod Routing
pub mod Server
pub mod SocketHub
pub mod Startup
