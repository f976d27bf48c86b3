-- ===== src/Deals/Configs/Versions.antt =====
-- The versions of a tenant's criteria configs, and which of them is active.
