-- ===== src/Block.antt =====
-- packages/block/src/header.ts: what a block header may say about its gas limit, its base fee and its
-- difficulty.
pub mod Header
mod Tests
