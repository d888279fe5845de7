-- ===== src/Orchestration.antt =====
-- packages/orchestration/src: the lifecycle of jobs and the order of provider events.
pub mod Errors
pub mod Canonical
pub mod State
pub mod Ordering
