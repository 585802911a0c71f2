-- ===== src/State.antt =====
-- The state of the virtual machine: packages/vm/src/state of the ethereumjs tree.
pub mod TransientStorage
pub mod Warm
pub mod Manager
