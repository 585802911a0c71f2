-- ===== src/Chain.antt =====
-- The parameters of a chain and its hardforks.
pub mod Params
