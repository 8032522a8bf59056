-- ===== src/Backup.antt =====
-- internal/backup/backup.go: one backup end to end, from the probe of the server to the manifest and
-- the index.
--
-- The dump, the pipeline and the upload of one object are a parameter, `stream`: what they report, and
-- what becomes of the bucket. The time zone is UTC, and a time is a number of nanoseconds.
pub mod Types
pub mod Runner
pub mod Reserve
pub mod Stored
pub mod Failures
