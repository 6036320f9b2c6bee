-- ===== src/Smt.antt =====
-- The crate smt_trie: bit sequences and keys of the sparse Merkle tree.
pub mod Bits
pub mod Key
pub mod Utils
