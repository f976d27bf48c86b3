-- ===== src/Examples.antt =====
-- The theorems at concrete inputs, and a few runs of the code.
mod Data
mod Scores
mod Queue
mod Tables
mod Access
mod Limits
mod Pipeline
mod Secrets
mod Requests
