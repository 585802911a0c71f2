-- ===== src/Celo.antt =====
-- The precompiled contracts that this repository adds to ethereumjs for the Celo chain.
pub mod Transfer
pub mod Registry
mod Tests
