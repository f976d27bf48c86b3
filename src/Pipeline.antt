-- ===== src/Pipeline.antt =====
-- From a stored file to the fields that the extraction service gets.
pub mod Pdf
pub mod Pii
pub mod Llm
pub mod Document
