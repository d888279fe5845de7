-- ===== src/Query.antt =====
-- packages/query/src: what a query asks about.
pub mod Selector
