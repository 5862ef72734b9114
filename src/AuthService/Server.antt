-- ===== src/AuthService/Server.antt =====
-- services/auth-service/src/server.js: the handlers that register, log in, refresh and log out.
pub mod State
pub mod Handlers
pub mod Accounts
pub mod Refresh
pub mod Replay
pub mod Races
pub mod Lasting
pub mod Trail
pub mod Reuse
