-- ===== src/Budget.antt =====
-- application/pipeline_budget.py, the wall-clock bound of the daily pipeline.
pub mod Bound
pub mod Floats
pub mod Covers
mod Examples
