-- ===== src/Ganache.antt =====
-- The packages of ganache-7.4.4 that the node uses around the virtual machine.
pub mod Heap
pub mod TransactionPool
