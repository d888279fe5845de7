-- ===== src/Updates.antt =====
-- packages/updates/src: which endpoints a change of the source may affect.
pub mod Snapshot
pub mod Utf8
pub mod References
pub mod Closure
pub mod Ownership
pub mod Index
pub mod Plan
pub mod Shape
pub mod Changed
pub mod Input
pub mod Planner
pub mod Differences
