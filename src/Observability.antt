-- ===== src/Observability.antt =====
-- src/app/observability: the scrubbing of log fields, the lines that the logger writes, the context
-- of a request, and the writer of audit rows.
pub mod Scrubber
pub mod Logger
pub mod Context
pub mod Lines
