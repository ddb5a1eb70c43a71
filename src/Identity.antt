-- ===== src/Identity.antt =====
-- domain/identity.py, the stable identifiers of persisted objects.
pub mod Encoding
pub mod Graph
pub mod Distinct
pub mod Joined
pub mod Readable
pub mod Arxiv
pub mod Parsed
mod Examples
