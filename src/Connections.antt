-- ===== src/Connections.antt =====
-- Connecting social channels: apps/api/src/connections.
pub mod State
pub mod Channels
pub mod Callback
pub mod Single
mod Examples
