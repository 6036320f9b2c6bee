-- ===== src/Generation/TrieExtractor.antt =====
-- Reading a trie out of the memory segment TrieData,
-- evm_arithmetization/src/generation/trie_extractor.rs. Of the memory the readers use this segment
-- of context 0 only, whose cells have 256 bits.
pub mod Nodes
pub mod Reading
pub mod Transactions
use zk_evm.Prelude.{
  ℕ, zero, suc, ◌+◌, ◌==◌, Bool, true, false, Option, none, some, List, [], ◌∷◌, length, take, drop,
  get_elem?, leb, ltb, if◌then◌else◌,
}
use zk_evm.Mpt.Nibbles.{Nibbles, new, merge_nibble, merge_nibbles}
use zk_evm.Mpt.Node.{
  Bytes, Node, empty, hash, branch, extension, leaf, TrieNodeType, empty_type, hash_type,
  branch_type, extension_type, leaf_type,
}
use zk_evm.Generation.Errors.{ProgramResult, ok, panic, ◌>>=◌, call, fit, u256_to_usize, u256_to_u8}
use zk_evm.Generation.Mpt.{MemoryValues}

abbrev pub unwrap_or_default : Option ℕ → ℕ
unwrap_or_default none = 0
unwrap_or_default (some w) = w

-- `load`, whose result is unwrapped wherever it is used.
abbrev pub load : MemoryValues → ℕ → ℕ
load memory offset = elim (get_elem? memory offset) [
  | none ↦ 0
  | some cell ↦ unwrap_or_default cell
]

abbrev pub load_slice_from : MemoryValues → ℕ → ProgramResult MemoryValues
load_slice_from memory init_offset =
    if leb init_offset (length memory) then ok (drop init_offset memory) else panic

-- `PartialTrieType::all()[n]`.
abbrev pub trie_type : ℕ → ProgramResult TrieNodeType
trie_type n =
    if n == 0
    then ok empty_type
    else if n == 1
    then ok hash_type
    else if n == 2
    then ok branch_type
    else if n == 3
    then ok extension_type
    else if n == 4
    then ok leaf_type
    else panic

-- The children from `i` on, as an array that is read at these only.
abbrev pub get_children : ℕ → ℕ → (ℕ → ProgramResult Node) → ProgramResult (ℕ → Node)
get_children zero i child = ok (λ j. empty)
get_children (suc left) i child = do
  first ← child i
  others ← get_children left (i + 1) child
  ok (λ j. if j == i then first else others j)

module _ (memory : MemoryValues)
    (read_value : MemoryValues → MemoryValues → ProgramResult Bytes) where
  abbrev pub value_at : ℕ → ProgramResult Bytes
  value_at ptr = do slice ← load_slice_from memory ptr; read_value memory slice

  abbrev pub get_hash : ℕ → ProgramResult Node
  get_hash ptr = ok (hash (load memory (ptr + 1)))

  abbrev pub nibbles_at : ℕ → ProgramResult Nibbles
  nibbles_at ptr = do
    count ← u256_to_usize (load memory (ptr + 1))
    ok (record { count = count; packed = load memory (ptr + 2) })

  abbrev pub get_leaf : ℕ → ProgramResult Node
  get_leaf ptr = do
    nibbles ← nibbles_at ptr
    value_ptr ← u256_to_usize (load memory (ptr + 3))
    value ← value_at value_ptr
    ok (leaf nibbles value)

  abbrev pub branch_value_at : ℕ → ProgramResult Bytes
  branch_value_at value_ptr = elim value_ptr [ zero ↦ ok [] | suc p ↦ value_at (suc p) ]

  module _ (get_child : ℕ → Nibbles → ProgramResult Node) where
    abbrev pub get_branch_child : ℕ → Nibbles → ℕ → ProgramResult Node
    get_branch_child ptr prefix i = do
      child_ptr ← u256_to_usize (load memory (ptr + 1 + i))
      child_prefix ← call (merge_nibble prefix i)
      get_child child_ptr child_prefix

    abbrev pub get_branch : ℕ → Nibbles → ProgramResult Node
    get_branch ptr prefix = do
      children ← get_children 16 0 (get_branch_child ptr prefix)
      value_ptr ← u256_to_usize (load memory (ptr + 1 + 16))
      value ← branch_value_at value_ptr
      ok (branch children value)

    abbrev pub get_extension_node : ℕ → Nibbles → ProgramResult Node
    get_extension_node ptr prefix = do
      nibbles ← nibbles_at ptr
      child_ptr ← u256_to_usize (load memory (ptr + 3))
      child_prefix ← call (merge_nibbles prefix nibbles)
      child ← get_child child_ptr child_prefix
      ok (extension nibbles child)

  -- The recursion follows pointers, so it runs on fuel; without fuel left it panics.
  unfoldable pub get_trie_helper : ℕ → ℕ → Nibbles → ProgramResult Node
  get_trie_helper zero ptr prefix = panic
  get_trie_helper (suc fuel) ptr prefix = do
    n ← u256_to_usize (load memory ptr)
    kind ← trie_type n
    elim kind [
      | empty_type ↦ ok empty
      | hash_type ↦ get_hash ptr
      | branch_type ↦ get_branch (get_trie_helper fuel) ptr prefix
      | extension_type ↦ get_extension_node (get_trie_helper fuel) ptr prefix
      | leaf_type ↦ get_leaf ptr
    ]

  unfoldable pub get_trie : ℕ → ℕ → ProgramResult Node
  get_trie fuel ptr = get_trie_helper fuel ptr new

-- The loop of `read_txn_rlp_value` over the cells.
abbrev pub read_bytes : MemoryValues → ProgramResult Bytes
read_bytes [] = ok []
read_bytes (x ∷ xs) = do b ← u256_to_u8 (unwrap_or_default x); bs ← read_bytes xs; ok (b ∷ bs)

-- `slice[1..n + 1]` panics past the end.
unfoldable pub read_txn_rlp_value : MemoryValues → MemoryValues → ProgramResult Bytes
read_txn_rlp_value memory [] = panic
read_txn_rlp_value memory (x ∷ slice) = do
  txn_rlp_len ← u256_to_usize (unwrap_or_default x)
  if leb txn_rlp_len (length slice) then read_bytes (take txn_rlp_len slice) else panic

unfoldable pub get_txn_trie : MemoryValues → ℕ → ℕ → ProgramResult Node
get_txn_trie memory fuel ptr = get_trie memory read_txn_rlp_value fuel ptr
