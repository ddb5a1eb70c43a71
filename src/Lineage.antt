-- ===== src/Lineage.antt =====
-- domain/knowledge.py, the bounded predecessor lineage of a paper.
pub mod Edge
pub mod Search
pub mod Ends
pub mod Complete
pub mod Reached
pub mod Invariant
pub mod Preserved
pub mod Eligible
pub mod Select
pub mod Selected
pub mod Snapshot
pub mod Build
pub mod Returned
mod Examples
