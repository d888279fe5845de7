-- ===== src/Environment.antt =====
-- packages/environment/src: what an environment serves.
pub mod Resolution
pub mod Ordering
