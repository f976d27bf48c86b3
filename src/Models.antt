-- ===== src/Models.antt =====
-- The data model (src/app/models): one child for each group of tables.
pub mod Enums
pub mod Deal
pub mod Criteria
pub mod Job
pub mod User
