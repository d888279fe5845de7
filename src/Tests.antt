-- ===== src/Tests.antt =====
-- The theorems, and the code, at concrete inputs.
mod Orchestration
mod Ordering
mod Environment
mod Updates
mod Query
mod Templates
mod Issues
mod Observations
mod Differences
mod Correlation
