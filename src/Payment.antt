-- ===== src/Payment.antt =====
-- internal/pkg/payment: orders, transfers, and turning an exact payment into an activation code.
pub mod Clip
pub mod Code
pub mod Settle
pub mod Amount
pub mod Sepay
pub mod Orders
pub mod Gateway
pub mod Webhook
pub mod Reconcile
pub mod History
