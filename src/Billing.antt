-- ===== src/Billing.antt =====
-- The billing subsystem: the read-only lock of a workspace, the plan limits and the payments.
pub mod Model
pub mod Access
pub mod TrialLock
pub mod Payment
pub mod Checkout
pub mod Reconciliation
pub mod Limits
pub mod Examples
