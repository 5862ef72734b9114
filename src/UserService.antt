-- ===== src/UserService.antt =====
-- services/user-service/src/server.js: users of tenants in one map.
pub mod Server
pub mod App
pub mod Isolation
pub mod Lifecycle
pub mod Transfer
