-- ===== src/Requests.antt =====
-- apps/api/src/common: the checks that stand before the handlers, that is the rate limit and the
-- guard on the addresses that a customer names.
pub mod Throttle
pub mod Egress
mod Examples
