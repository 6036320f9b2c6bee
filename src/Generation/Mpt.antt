-- ===== src/Generation/Mpt.antt =====
-- Writing a trie into the memory segment TrieData, evm_arithmetization/src/generation/mpt.rs. The
-- vector `trie_data`, which the code appends to and patches, is returned with the pointer.
pub mod Cells
pub mod Loading
use zk_evm.Prelude.{
  ℕ, zero, suc, ◌+◌, Bool, true, false, Option, none, some, List, [], ◌∷◌, ◌++◌, length, map,
  if◌then◌else◌,
}
use zk_evm.Mpt.Nibbles.{Nibbles}
use zk_evm.Mpt.Node.{Bytes, Node, empty, hash, branch, extension, leaf, is_empty_bytes}
use zk_evm.Generation.Errors.{ProgramResult, ok, panic, ◌>>=◌, fit}

abbrev pub MemoryValues : Type 0
MemoryValues = List (Option ℕ)

-- `Vec::push` and `Vec::extend` on words.
abbrev pub pushed : MemoryValues → List ℕ → MemoryValues
pushed trie_data words = trie_data ++ map some words

-- `trie_data[i] = Some(w)`.
unfoldable pub set_cell : MemoryValues → ℕ → ℕ → ProgramResult MemoryValues
set_cell [] i w = panic
set_cell (c ∷ cs) zero w = ok (some w ∷ cs)
set_cell (c ∷ cs) (suc i) w = do rest ← set_cell cs i w; ok (c ∷ rest)

-- `PartialTrieType::of`, as a number.
abbrev pub type_of_trie : Node → ℕ
type_of_trie empty = 0
type_of_trie (hash h) = 1
type_of_trie (branch children value) = 2
type_of_trie (extension nibbles child) = 3
type_of_trie (leaf nibbles value) = 4

abbrev pub zeros : ℕ → List ℕ
zeros zero = []
zeros (suc n) = 0 ∷ zeros n

-- The loop over the children from `i` on.
abbrev pub load_children :
    ℕ
    → ℕ
    → ℕ
    → (ℕ → MemoryValues → ProgramResult (ℕ × MemoryValues))
    → MemoryValues
    → ProgramResult MemoryValues
load_children zero i first_child_ptr load trie_data = ok trie_data
load_children (suc left) i first_child_ptr load trie_data = do
  (child_ptr, loaded) ← load i trie_data
  patched ← set_cell loaded (first_child_ptr + i) child_ptr
  load_children left (i + 1) first_child_ptr load patched

module _ (parse_value : Bytes → ProgramResult (List ℕ)) where
  -- The pointer to a value, and the value behind it.
  abbrev pub push_value : Bytes → MemoryValues → ProgramResult MemoryValues
  push_value value trie_data = do
    parsed_value ← parse_value value
    ok (pushed trie_data ((length trie_data + 1) ∷ parsed_value))

  abbrev pub push_branch_value : Bytes → MemoryValues → ProgramResult MemoryValues
  push_branch_value value trie_data =
      if is_empty_bytes value then ok (pushed trie_data (0 ∷ [])) else push_value value trie_data

  unfoldable pub load_mpt : Node → MemoryValues → ProgramResult (ℕ × MemoryValues)
  load_mpt empty trie_data = ok (0, trie_data)
  load_mpt (hash h) trie_data = ok (length trie_data, pushed trie_data (1 ∷ (h ∷ [])))
  load_mpt (branch children value) trie_data = do
    let typed = pushed trie_data (type_of_trie (branch children value) ∷ [])
    with_value ← push_branch_value value (pushed typed (zeros 16))
    loaded ← load_children 16 0 (length typed) (λ i. load_mpt (children i)) with_value
    ok (length trie_data, loaded)
  load_mpt (extension nibbles child) trie_data = do
    packed ← fit 256 nibbles.packed
    let head = pushed trie_data (3 ∷ (nibbles.count ∷ (packed ∷ [])))
    (child_ptr, loaded) ← load_mpt child (pushed head ((length head + 1) ∷ []))
    ok (length trie_data, elim child_ptr [ zero ↦ pushed loaded (0 ∷ []) | suc p ↦ loaded ])
  load_mpt (leaf nibbles value) trie_data = do
    packed ← fit 256 nibbles.packed
    loaded ← push_value value (pushed trie_data (4 ∷ (nibbles.count ∷ (packed ∷ []))))
    ok (length trie_data, loaded)

-- What the transactions trie holds: the length of the encoding, and its bytes.
unfoldable pub parse_txn : Bytes → ProgramResult (List ℕ)
parse_txn rlp = ok (length rlp ∷ rlp)
