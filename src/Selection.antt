-- ===== src/Selection.antt =====
-- application/daily_selection.py, the relevance filter of the daily pipeline.
pub mod Rank
pub mod Daily
pub mod Relevant
pub mod Passed
pub mod Ordered
pub mod Reordered
mod Examples
