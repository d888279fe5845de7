-- ===== src/Observations.antt =====
-- packages/observations/src: observed requests against the endpoints of a snapshot.
pub mod Template
pub mod Url
pub mod Context
pub mod Inert
pub mod Correlation
