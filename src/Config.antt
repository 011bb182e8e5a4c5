-- ===== src/Config.antt =====
-- internal/config/config.go.
pub mod Types
pub mod Load
pub mod Validate
