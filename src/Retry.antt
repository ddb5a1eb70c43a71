-- ===== src/Retry.antt =====
-- adapters/http_retry.py, the bounded retry of one HTTP request.
pub mod Policy
pub mod Loop
pub mod Trace
pub mod Outcome
mod Examples
