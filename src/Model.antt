-- ===== src/Model.antt =====
-- The tables of internal/model, the errors and the configuration that the components share.
pub mod Errors
pub mod License
pub mod Payment
pub mod Config
pub mod Store
pub mod Game
pub mod Sharing
pub mod Rollback
