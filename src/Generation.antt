-- ===== src/Generation.antt =====
-- The parts of evm_arithmetization/src/generation that move a trie into the memory of the zkEVM and
-- out of it again.
pub mod Errors
pub mod Mpt
pub mod LinkedList
pub mod TrieExtractor
mod Tests
