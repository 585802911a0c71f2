-- ===== src/Trie.antt =====
-- packages/trie: the keys of the trie and its database.
pub mod Nibbles
pub mod CheckpointDb
