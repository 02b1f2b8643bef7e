-- ===== src/Platform.antt =====
-- What the handlers stand on: runtime settings, rate limits and the alerts' ring buffer.
pub mod Settings
pub mod RateLimit
pub mod Alerts
