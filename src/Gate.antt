-- ===== src/Gate.antt =====
-- adapters/postgres/arxiv_request_gate.py, the gate that paces the requests to arXiv.
pub mod Phase
pub mod Coordinate
pub mod Returned
pub mod Paced
mod Examples
