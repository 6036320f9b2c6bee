-- ===== src/Generation/LinkedList.antt =====
-- Linked lists in the memory, evm_arithmetization/src/generation/linked_list.rs, and the list of the
-- storage leaves of a trie, `get_storage_leaves` of evm_arithmetization/src/generation/mpt.rs. An
-- offset stands for a segment.
pub mod Links
pub mod Leaves
use zk_evm.Prelude.{
  ℕ, zero, suc, ◌+◌, ◌-◌, ◌*◌, ◌^◌, ◌==◌, Bool, Option, none, some, List, [], ◌∷◌, ◌++◌, length,
  map, get_elem?, checked_sub, if◌then◌else◌,
}
use zk_evm.Mpt.Nibbles.{Nibbles, merge_nibbles}
use zk_evm.Mpt.Node.{Bytes, Node, empty, hash, branch, extension, leaf}
use zk_evm.Generation.Errors.{
  ProgramResult, ok, err, panic, ◌>>=◌, call, fit, u256_to_usize, prover_input_error, invalid_input,
}
use zk_evm.Generation.Mpt.{MemoryValues, pushed, set_cell}

-- `Segment::StorageLinkedList as usize`.
abbrev pub storage_linked_list : ℕ
storage_linked_list = 35 * 2 ^ 32

abbrev pub storage_linked_list_node_size : ℕ
storage_linked_list_node_size = 5

-- The entries of `empty_list_mem` from `i` on.
abbrev pub empty_list_from : ℕ → ℕ → ℕ → ℕ → List ℕ
empty_list_from zero i n segment = []
empty_list_from (suc left) i n segment =
    (if i == 0 then 2 ^ 256 - 1 else if i == n - 1 then segment else 0)
    ∷ empty_list_from left (i + 1) n segment

unfoldable pub empty_list_mem : ℕ → ℕ → MemoryValues
empty_list_mem n segment = map some (empty_list_from n 0 n segment)

pub record LinkedList : Type 0 where
  pub mem : MemoryValues
  pub offset : ℕ
  pub pos : ℕ

unfoldable pub from_mem_and_segment : MemoryValues → ℕ → ProgramResult LinkedList
from_mem_and_segment [] segment = err (prover_input_error invalid_input)
from_mem_and_segment (c ∷ mem) segment = ok (record { mem = c ∷ mem; offset = segment; pos = 0 })

-- `self.mem[i].unwrap_or_default()`, which panics past the end.
abbrev pub cell_at : MemoryValues → ℕ → ProgramResult ℕ
cell_at mem i = elim (get_elem? mem i) [
  | none ↦ panic
  | some cell ↦ elim cell [ none ↦ ok 0 | some w ↦ ok w ]
]

abbrev pub cells_at : ℕ → MemoryValues → ℕ → ProgramResult (List ℕ)
cells_at zero mem i = ok []
cells_at (suc n) mem i = do w ← cell_at mem i; ws ← cells_at n mem (suc i); ok (w ∷ ws)

-- The two arms of `next`, on the converted pointer.
abbrev pub next_at : ℕ → LinkedList → ProgramResult ℕ → ProgramResult (Option (List ℕ × LinkedList))
next_at n self (ok new_pos) = do
  pos ← call (checked_sub new_pos self.offset)
  item ← cells_at n self.mem pos
  ok (some (item, record { mem = self.mem; offset = self.offset; pos = pos }))
next_at n self (err e) = ok none
next_at n self panic = panic

-- `next` of the iterator, for nodes of `n` cells.
unfoldable pub next_node : ℕ → LinkedList → ProgramResult (Option (List ℕ × LinkedList))
next_node n self = do
  pointer ← cell_at self.mem (self.pos + n - 1)
  next_at n self (u256_to_usize pointer)

-- The first items of the iterator.
unfoldable pub take_nodes : ℕ → ℕ → LinkedList → ProgramResult (List (List ℕ))
take_nodes zero n self = ok []
take_nodes (suc count) n self = next_node n self >>= λ found. elim found [
  | none ↦ ok []
  | some (item, self') ↦ take_nodes count n self' >>= λ items. ok (item ∷ items)
]

-- The loop over the children from `i` on.
abbrev pub leaves_loop :
    ℕ
    → ℕ
    → (ℕ → MemoryValues → ProgramResult MemoryValues)
    → MemoryValues
    → ProgramResult MemoryValues
leaves_loop zero i child leaves = ok leaves
leaves_loop (suc left) i child leaves = do
  next ← child i leaves
  leaves_loop left (i + 1) child next

abbrev pub single_value : List ℕ → ProgramResult ℕ
single_value (w ∷ []) = ok w
single_value words = panic

abbrev pub nibble_key : ℕ → Nibbles
nibble_key i = record { count = 1; packed = i }

module _ (parse_value : Bytes → ProgramResult (List ℕ)) (address : ℕ) where
  unfoldable pub get_storage_leaves : Nibbles → Node → MemoryValues → ProgramResult MemoryValues
  get_storage_leaves key (branch children value) storage_leaves =
      leaves_loop 16 0
        (λ i leaves. call (merge_nibbles key (nibble_key i)) >>= λ extended_key.
          get_storage_leaves extended_key (children i) leaves)
        storage_leaves
  get_storage_leaves key (extension nibbles child) storage_leaves = do
    extended_key ← call (merge_nibbles key nibbles)
    get_storage_leaves extended_key child storage_leaves
  get_storage_leaves key (leaf nibbles value) storage_leaves = do
    let len = length storage_leaves
    merged_key ← call (merge_nibbles key nibbles)
    last ← call (checked_sub len 1)
    patched ← set_cell storage_leaves last (storage_linked_list + len)
    slot ← fit 256 merged_key.packed
    words ← parse_value value
    w ← single_value words
    ok (pushed patched (address ∷ (slot ∷ (w ∷ (0 ∷ (storage_linked_list ∷ []))))))
  get_storage_leaves key node storage_leaves = ok storage_leaves
