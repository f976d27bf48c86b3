-- ===== src/Scoring.antt =====
-- The scoring engine: src/app/services/criteria_evaluator.py and the pure part of
-- src/app/services/scoring_service.py. The proofs are in the children.
pub mod Evaluator
pub mod Compute
pub mod Rationale
