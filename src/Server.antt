-- ===== src/Server.antt =====
-- internal/server: the throttle of failed authentications and the registry of runs.
pub mod Throttle
pub mod Sweep
pub mod Lockout
pub mod Runs
pub mod Trimming
pub mod Registry
pub mod Begin
