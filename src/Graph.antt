-- ===== src/Graph.antt =====
-- domain/knowledge.py, the records of the knowledge graph that check themselves.
pub mod Record
pub mod Accepted
mod Examples
pub mod Label
pub mod Normal
pub mod Entity
pub mod Keyed
pub mod Canonical
pub mod Union
pub mod Dictionary
pub mod United
pub mod Merge
pub mod Grouped
pub mod Bundle
pub mod Closed
pub mod Publish
pub mod Published
mod BundleExamples
