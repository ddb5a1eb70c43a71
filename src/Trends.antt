-- ===== src/Trends.antt =====
-- domain/knowledge.py, the trend snapshots: how a count changed from one window to the next, the
-- bounds of the windows, and the aggregation of a window.
pub mod Change
pub mod Accepted
pub mod Calendar
pub mod Split
pub mod Snapshot
pub mod Aggregate
pub mod Window
pub mod Guarded
pub mod Found
pub mod Counted
pub mod EntityCounts
pub mod Active
pub mod Aggregated
mod Examples
mod AggregateExamples
