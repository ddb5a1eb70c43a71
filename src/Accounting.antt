-- ===== src/Accounting.antt =====
-- application/pipeline_accounting.py, with `ModelUsage` of domain/analysis.py.
pub mod Usage
pub mod Counters
pub mod Ports
pub mod Calls
pub mod Totals
pub mod Snapshots
mod Examples
