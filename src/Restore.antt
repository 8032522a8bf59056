-- ===== src/Restore.antt =====
-- internal/restore/restore.go: the restore of one backup into a database.
pub mod Runner
pub mod Matched
