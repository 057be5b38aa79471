-- ===== src/Config.antt =====
-- internal/config/config.go: the configuration file, from its path to the checked settings.
pub mod Types
pub mod Paths
pub mod Security
pub mod Defaults
pub mod Validate
pub mod Load
pub mod Init
mod Tests
