-- ===== src/Publishing.antt =====
-- Content, its review, and the posts and posting plans that publish it: apps/api/src/content and
-- apps/api/src/scheduling.
pub mod Model
pub mod Content
pub mod Scheduling
pub mod Plans
pub mod Calls
mod Examples
