-- ===== src/Vm.antt =====
-- The transactions of packages/tx and the VM of packages/vm that runs them.
pub mod RunTx
