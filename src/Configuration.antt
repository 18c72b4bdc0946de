-- ===== src/Configuration.antt =====
-- src/internal/config/config.go: the configuration from the environment.
pub mod Texts
pub mod Peers
pub mod Loading
pub mod Checked
