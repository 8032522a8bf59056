-- ===== src/Retention.antt =====
-- internal/retention/retention.go: the types of the policy, of a backup and of a plan, and the
-- methods of `Decision` and `Plan`. The planner is in `Retention.Planner`, the periods in
-- `Retention.Periods`.
--
-- An instant is the number of nanoseconds since Go's zero time. A location is the name of a time
-- zone; `none` is the nil pointer. `keep`, `min_keep` and the sizes are not negative.
pub mod Types
pub mod Periods
pub mod Planner
pub mod Collect
pub mod Representative
pub mod Floor
pub mod Partition
pub mod Safety
pub mod Tiers
pub mod Calendar
