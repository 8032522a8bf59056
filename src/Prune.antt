-- ===== src/Prune.antt =====
-- internal/prune/prune.go: a target's policy applied to its bucket.
pub mod Runner
pub mod Attempts
pub mod Safety
