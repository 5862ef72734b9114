-- ===== src/AuthService.antt =====
-- services/auth-service/src: roles and permissions, the refresh tokens and the handlers.
pub mod Rbac
pub mod TokenStore
pub mod Server
pub mod Startup
