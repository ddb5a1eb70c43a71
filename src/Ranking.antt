-- ===== src/Ranking.antt =====
-- application/historical_ranking.py, the scores of historical candidates.
pub mod Ratio
pub mod Lexical
pub mod Signals
pub mod Combined
pub mod Similar
mod Examples
