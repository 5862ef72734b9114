-- ===== src/Frontend.antt =====
-- frontend/src: the state of the dashboard.
pub mod Realtime
pub mod Snapshot
pub mod Shape
pub mod Api
pub mod Rows
pub mod Overview
pub mod Stale
pub mod Markup
pub mod View
pub mod Session
