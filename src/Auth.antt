-- ===== src/Auth.antt =====
-- Sign-in and its tokens: apps/api/src/auth.
pub mod Model
pub mod Backoff
pub mod Reset
pub mod Refresh
pub mod Codes
pub mod Login
pub mod Examples
