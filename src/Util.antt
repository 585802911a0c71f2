-- ===== src/Util.antt =====
-- packages/util of the ethereumjs tree: helpers on buffers.
pub mod Padding
mod Tests
