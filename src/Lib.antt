-- ===== src/Lib.antt =====
-- Verification of the zk_evm repository: the Merkle Patricia tries of the crate mpt_trie, and the
-- optimizer for the kernel's code of the crate evm_arithmetization; the tries in the memory of the
-- zkEVM, and the rows and constraints of its additions and comparisons; the stack machine of the crate
-- trace_decoder; the bits and keys of the crate smt_trie.
--
-- The repository proves Ethereum blocks. Its crate mpt_trie keeps the state, storage, transaction
-- and receipt tries in memory, with parts replaced by their hashes; the trace decoder and the
-- witness generator of evm_arithmetization build, read and change such tries.
--
-- The files, and the code that they model:
--
--   Prelude and below: shared names, lists over the native numbers, powers, and the laws of `&`,
--   `|` and `!` that the packed keys need.
--   Mpt/Intern: `NibblesIntern` of mpt_trie/src/nibbles.rs, the word of 320 bits, and
--   `create_mask_of_1s` and `is_even` of mpt_trie/src/utils.rs.
--   Mpt/Nibbles: the type `Nibbles` and its methods, mpt_trie/src/nibbles.rs. Below it Value packs
--   lists of nibbles, Fields and Cuts read masks and shifts as cuts of a list, and Slices, Joins,
--   Access and Compare describe the methods on lists.
--   Mpt/Conversions: keys from bytes, hashes and integers and back, and the hex-prefix encoding,
--   mpt_trie/src/nibbles.rs.
--   Mpt/Node: the nodes, values, errors and results, mpt_trie/src/partial_trie.rs, utils.rs and
--   trie_ops.rs.
--   Mpt/Keys: lists of nibbles as keys, for the proofs.
--   Mpt/Trie: lookup, insertion and extension, mpt_trie/src/trie_ops.rs, and `from_iter_common` of
--   mpt_trie/src/partial_trie.rs. Below it Meaning says what a trie stands for and
--   Compact which shape it has; Get, Fork, InsertSteps, InsertForks, Insert and Extend prove what
--   the operations do to it.
--   Mpt/Delete: deletion, mpt_trie/src/trie_ops.rs. Below it Counting counts the children of a
--   branch, Shape collapses extensions, and Branches, Steps, Remove and Reads follow a
--   deletion up the trie.
--   Mpt/Iter: the iterator over a trie's items, mpt_trie/src/trie_ops.rs. Below it Walk is
--   the plain walk it is held against, Visits follows the stack, Items runs the iterator to its end,
--   and Keys compares it with lookups.
--   Mpt/Query: the path of a key, mpt_trie/src/special_query.rs. Below it Paths compares it with
--     lookups.
--   Mpt/Hashing: the encoding and the hash of a trie, mpt_trie/src/trie_hashing.rs, with RLP and keccak as
--   parameters.
--   Mpt/Subsets: mpt_trie/src/trie_subsets.rs. Below it Hashes follows the encoding of a subset,
--   Marks the marking of keys, and Resets the marks between two subsets.
--   Kernel/U256: the operations of 256-bit words that the kernel's tools call.
--   Kernel/Ast: the syntax of kernel code, evm_arithmetization/src/cpu/kernel/ast.rs, and its derived
--   equality.
--   Kernel/Windows: `replace_windows`, evm_arithmetization/src/cpu/kernel/utils.rs. Below it Lists and
--   Rewriting follow the loop, and Panics treats replacements that may panic.
--   Kernel/Cost: evm_arithmetization/src/cpu/kernel/cost_estimator.rs.
--   Kernel/Operators: what the witness generator computes for the arithmetic and logic operators,
--   evm_arithmetization/src/arithmetic/mod.rs, logic.rs and util.rs.
--   Kernel/Machine: a stack machine for kernel code, which is the specification the optimizer is held
--   against. Below it Order says when code may stand for other code.
--   Kernel/Optimizer: evm_arithmetization/src/cpu/kernel/optimizer.rs. Below it Folding, Rules and
--   Removals treat each replacement, Shifts says where one panics, Passes measures them, Replacements
--   follows the passes, and Correct puts them together.
--   Generation/Errors: evm_arithmetization/src/witness/errors.rs, and the conversions of
--   evm_arithmetization/src/util.rs.
--   Generation/Mpt: `load_mpt` of evm_arithmetization/src/generation/mpt.rs, which writes a trie into the
--   memory. Below it Cells says what stands in cells and Loading what a load leaves in them.
--   Generation/TrieExtractor: evm_arithmetization/src/generation/trie_extractor.rs, which reads a trie
--   from the memory. Below it Nodes treats single cells, Reading the trie, and Transactions its
--   instance for the transactions trie.
--   Generation/LinkedList: evm_arithmetization/src/generation/linked_list.rs, and `get_storage_leaves` of
--   mpt.rs there. Below it Links says which memory holds a list and Leaves follows a trie's leaves.
--   Arithmetic/Fields: the field of the tables, a parameter with what plonky2 documents of it.
--   Arithmetic/Columns: evm_arithmetization/src/arithmetic/columns.rs, and `u256_to_array` of utils.rs
--   there.
--   Arithmetic/Addcy: evm_arithmetization/src/arithmetic/addcy.rs. Below it Digits and Sums read the
--   constraints as sums of limbs and Soundness draws the result from them; Completeness, Rows,
--   Registers and Generated show that a generated row meets them.
--   TraceDecoder/Wire: the instructions of trace_decoder/src/wire.rs.
--   TraceDecoder/Type1: the stack machine of trace_decoder/src/type1.rs. Below it Encoding writes a tree
--   as instructions, Branches and Running run them, and Rejecting treats those that fail.
--   Smt/Bits: the sequences of bits of smt_trie/src/bits.rs. Below it Sequences reads them as lists and
--   Prefixes follows `common_prefix`.
--   Smt/Key: the type `Key` of smt_trie/src/smt.rs, and the path that `get` keeps. Below it Lanes and
--   RoundTrip follow a bit from a key to its path and back.
--   Smt/Utils: the conversions of smt_trie/src/utils.rs.
--
-- The tries and the optimizer do not call each other: the optimizer is part of the assembler, which
-- builds the kernel, and the kernel's runs read and change the tries.
--
-- How the code is read. A method that mutates `self` returns the new value. A panic is `none` on
-- keys and `panic` on tries; subtraction on `usize` and the bounds of arrays are checked, as in a
-- build with overflow checks; sums of nibble counts stay far below 2 ^ 64 and are not cut. Nodes are
-- shared but never changed in place, so a wrapped node is the node. The array of 16 children is a
-- function of the index that is read below 16 only. Bytes are numbers, a hash is one number. The
-- recursions on tries are structural, on the node or on the count of rounds; the iterator has fuel for
-- one round for each node, each child of a branch, and two more. The loops of the kernel's
-- tools run on fuel: a sliding window of width W takes at most W rounds for each item and one more,
-- the optimizer one pass for each item and one more, and the modular subtraction as many rounds as
-- its second operand. The loops of smt_trie that run while two sequences differ have a round for each
-- bit and one more; its other loops are counted.
--
-- The stack machine takes the operations that the optimizer does not know, the addresses of labels
-- and the target of a jump as parameters: an unknown operation keeps words on the stack and unknown
-- DUP names crash. It counts neither gas nor the depth of the stack. The optimizer's shift of a literal
-- casts the amount to a machine integer, as the crate for words does, and panics where it does not fit.
--
-- The tries of the theorems hold keys of one length, at most 64 nibbles: the code's lookup compares
-- a leaf up to the shorter key only, and says that it is made for keys of one size.
--
-- Not modelled: RLP and keccak themselves, the cached hashes of a trie, serialisation, display and
-- logging, the rest of the assembler, the other tables, the circuits and the proofs of
-- evm_arithmetization, which are calls of plonky2 and starky throughout, and the other crates of the
-- repository.
--
-- The memory is the segment TrieData of context 0, as a list of cells that may be unset. Reading a trie
-- follows pointers, so it runs on fuel: one round for each nibble of a key, and one more. The field of
-- the tables is a parameter: its elements have canonical numbers, on which the operations are those
-- modulo 2 ^ 64 - 2 ^ 32 + 1, and that it is a field is not needed. The conversion of a word to a key
-- takes plonky2's conversion of a 64-bit number as a parameter, which keeps the numbers below that
-- order. The limbs of a register are taken
-- to be range-checked, which another table of the repository does.
pub mod Prelude
pub mod Mpt
pub mod Kernel
pub mod Smt
pub mod Generation
pub mod Arithmetic
pub mod TraceDecoder
