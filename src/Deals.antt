-- ===== src/Deals.antt =====
-- The life of a deal: the services and API routes that read and write the deal tables.
pub mod Db
pub mod Extraction
pub mod Scores
pub mod Ingestion
pub mod Decisions
pub mod Configs
pub mod Audit
pub mod Handlers
pub mod Upload
pub mod Listing
