-- ===== src/Mpt.antt =====
-- The crate mpt_trie: Merkle Patricia tries over keys of packed nibbles.
pub mod Intern
pub mod Nibbles
pub mod Conversions
pub mod Node
pub mod Trie
pub mod Keys
pub mod Delete
pub mod Iter
pub mod Hashing
pub mod Subsets
pub mod Query
