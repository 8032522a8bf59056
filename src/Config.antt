-- ===== src/Config.antt =====
-- internal/config: the checks of a configuration (validate.go) and its defaults (defaults.go), over the parts of it that they read
-- (types.go).
pub mod Names
pub mod Types
pub mod Stages
pub mod Options
pub mod Targets
pub mod Validate
pub mod Defaults
pub mod Resolved
pub mod Retained
pub mod Accepted
