-- ===== src/Evm.antt =====
-- The Ethereum virtual machine: packages/vm/src/evm of the ethereumjs tree.
pub mod Error
pub mod Stack
pub mod Memory
pub mod Meter
pub mod Gas
pub mod Alu
pub mod Eof
pub mod Interpreter
pub mod Message
pub mod Handlers
pub mod Jumps
pub mod Sstore
