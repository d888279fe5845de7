-- ===== src/Ir.antt =====
-- packages/ir/src: the identity of an endpoint's route.
pub mod Names
pub mod Identity
