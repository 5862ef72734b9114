-- ===== src/Platform.antt =====
-- The parts together: the authentication service's tokens at the gateway, the gateway's identity
-- headers at the user service.
pub mod Tokens
pub mod Tenants
pub mod Escalation
pub mod Chaos
pub mod Live
pub mod Keys
pub mod Polls
