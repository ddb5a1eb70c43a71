-- ===== src/Ingest.antt =====
-- application/ingest_arxiv.py, the resumable harvest of the arXiv updates of a window, with
-- application/arxiv_query.py and ports/arxiv.py.
pub mod Record
pub mod Query
pub mod Progress
pub mod Harvest
pub mod Logs
pub mod Fetched
pub mod Covered
pub mod Sound
pub mod Rounds
pub mod Prepared
pub mod Harvested
pub mod Steps
pub mod Ends
mod Examples
