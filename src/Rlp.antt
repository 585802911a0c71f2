-- ===== src/Rlp.antt =====
-- packages/rlp/src/index.ts of the ethereumjs tree: the recursive length prefix encoding.
pub mod Item
pub mod Numbers
pub mod Encode
pub mod Decode
pub mod Branches
pub mod Calls
pub mod RoundTrip
mod Tests
