-- ===== src/License.antt =====
-- internal/pkg/license: activation codes, subscriptions, entitlements and the enforcement switch.
pub mod Code
pub mod Term
pub mod Plans
pub mod Redeem
pub mod ClawBack
