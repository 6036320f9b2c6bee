-- ===== src/Mpt/Trie.antt =====
-- mpt_trie/src/trie_ops.rs: lookup and insertion on a trie.
pub mod Meaning
pub mod Get
pub mod Fork
pub mod Compact
pub mod InsertSteps
pub mod InsertForks
pub mod Insert
pub mod Extend
mod Tests
use zk_evm.Prelude.{
  ℕ, ◌+◌, Bool, true, false, Option, none, some, ◌==◌, ◌&&◌, if◌then◌else◌, List, [], ◌∷◌,
}
use mathlib.Core.Option
use zk_evm.Mpt.Nibbles.{
  Nibbles, is_empty, get_nibble, pop_next_nibble_front, pop_nibbles_front, truncate_n_nibbles_front,
  nibbles_are_identical_up_to_smallest_count, split_at_idx, split_at_idx_postfix,
  find_nibble_idx_that_differs_between_nibbles_different_lengths,
}
use zk_evm.Mpt.Node.{
  H256, Bytes, Node, empty, hash, branch, extension, leaf, ValOrHash, val, hash_val, TrieOpError,
  hash_node_insert_error, existing_hash_node_error, TrieOpResult, ok, err, panic, ◌>>=◌, ◌>>◌, call,
  in_array, set_child, new_branch_child_arr, is_empty_bytes,
}

-- `==` on keys compares both fields.
abbrev pub nibbles_eq : Nibbles → Nibbles → Bool
nibbles_eq a b = a.count == b.count && a.packed == b.packed

-- `trie_get_intern`. The outer result is a panic of the source or its `Option`.
pub trie_get_intern : Node → Nibbles → TrieOpResult (Option Bytes)
trie_get_intern empty curr_nibbles = ok none
trie_get_intern (hash h) curr_nibbles = ok none
trie_get_intern (branch children value) curr_nibbles =
    let below : TrieOpResult (Option Bytes) = (do
      (nib, rest) ← call (pop_next_nibble_front curr_nibbles)
      in_array nib
      trie_get_intern (children nib) rest) in
    let here : Option Bytes = if is_empty_bytes value then none else some value in
    if is_empty curr_nibbles then ok here else below
trie_get_intern (extension nibbles child) curr_nibbles = do
  (r, rest) ← call (pop_nibbles_front curr_nibbles nibbles.count)
  identical ← call (nibbles_are_identical_up_to_smallest_count r nibbles)
  let below = trie_get_intern child rest
  if identical then below else ok none
trie_get_intern (leaf nibbles value) curr_nibbles = do
  identical ← call (nibbles_are_identical_up_to_smallest_count nibbles curr_nibbles)
  ok (if identical then some value else none)

pub trie_get : Node → Nibbles → TrieOpResult (Option Bytes)
trie_get self k = trie_get_intern self k

pub record InsertEntry : Type 0 where
  pub nibbles : Nibbles
  pub v : ValOrHash

pub record ExistingAndNewNodePreAndPost : Type 0 where
  pub common_prefix : Nibbles
  pub existing_postfix : Nibbles
  pub new_postfix : Nibbles

pub data ExistingOrNewBranchValuePlacement : Type 0 where
  branch_value : Bytes → ℕ × Node → ExistingOrNewBranchValuePlacement
  both_branch_children : ℕ × Node → ℕ × Node → ExistingOrNewBranchValuePlacement

pub create_node_from_insert_val : Nibbles → ValOrHash → Node
create_node_from_insert_val nibbles (val value) = leaf nibbles value
create_node_from_insert_val nibbles (hash_val h) =
    if is_empty nibbles then hash h else extension nibbles (hash h)

pub create_node_if_ins_val_not_hash : ValOrHash → (Bytes → Node) → TrieOpResult Node
create_node_if_ins_val_not_hash (val leaf_v) create_node_f = ok (create_node_f leaf_v)
create_node_if_ins_val_not_hash (hash_val h) create_node_f = err (existing_hash_node_error h)

pub branch_from_insert_val : (ℕ → Node) → ValOrHash → TrieOpResult Node
branch_from_insert_val children value = create_node_if_ins_val_not_hash value (branch children)

pub leaf_from_insert_val : Nibbles → ValOrHash → TrieOpResult Node
leaf_from_insert_val nibbles value = create_node_if_ins_val_not_hash value (leaf nibbles)

pub expect_val : ValOrHash → TrieOpResult Bytes
expect_val (val v) = ok v
expect_val (hash_val h) = panic

pub get_pre_and_postfixes_for_existing_and_new_nodes :
    Nibbles → Nibbles → TrieOpResult ExistingAndNewNodePreAndPost
get_pre_and_postfixes_for_existing_and_new_nodes existing_node_nibbles new_node_nibbles = do
  nib_idx_of_difference ← call (
      find_nibble_idx_that_differs_between_nibbles_different_lengths existing_node_nibbles
        new_node_nibbles)
  (common, existing) ← call (split_at_idx existing_node_nibbles nib_idx_of_difference)
  new ← call (split_at_idx_postfix new_node_nibbles nib_idx_of_difference)
  ok (record { common_prefix = common; existing_postfix = existing; new_postfix = new })

pub ins_entry_into_leaf_and_nibble :
    ExistingAndNewNodePreAndPost → InsertEntry → TrieOpResult (ℕ × Node)
ins_entry_into_leaf_and_nibble info entry = do
  new_first_nibble ← call (get_nibble info.new_postfix 0)
  nibbles ← call (truncate_n_nibbles_front entry.nibbles (info.common_prefix.count + 1))
  ok (new_first_nibble, create_node_from_insert_val nibbles entry.v)

-- The arms below the first: the new node goes into the value when nothing of its key is left.
place_beside_existing :
    ExistingAndNewNodePreAndPost
    → Node
    → InsertEntry
    → TrieOpResult ExistingOrNewBranchValuePlacement
unfolding expect_val ins_entry_into_leaf_and_nibble
place_beside_existing info existing_node new_node_entry =
    let new_in_value : TrieOpResult ExistingOrNewBranchValuePlacement = (do
      value ← expect_val new_node_entry.v
      nib ← call (get_nibble info.existing_postfix 0)
      ok (branch_value value (nib, existing_node))) in
    let both : TrieOpResult ExistingOrNewBranchValuePlacement = (do
      nib ← call (get_nibble info.existing_postfix 0)
      new ← ins_entry_into_leaf_and_nibble info new_node_entry
      ok (both_branch_children (nib, existing_node) new)) in
    if info.new_postfix.count == 0 then new_in_value else both

pub check_if_existing_or_new_node_should_go_in_branch_value_field :
    ExistingAndNewNodePreAndPost
    → Node
    → InsertEntry
    → TrieOpResult ExistingOrNewBranchValuePlacement
unfolding place_beside_existing
check_if_existing_or_new_node_should_go_in_branch_value_field info (leaf nibbles value) entry =
    let existing_in_value : TrieOpResult ExistingOrNewBranchValuePlacement = (do
      new ← ins_entry_into_leaf_and_nibble info entry
      ok (branch_value value new)) in
    if info.existing_postfix.count == 0
    then existing_in_value
    else place_beside_existing info (leaf nibbles value) entry
check_if_existing_or_new_node_should_go_in_branch_value_field info existing_node entry =
    place_beside_existing info existing_node entry

-- `children[nib] = node` on the fresh array, and the value of the branch.
fill_branch : ExistingOrNewBranchValuePlacement → TrieOpResult Node
fill_branch (branch_value branch_v (nib, node)) = do
  in_array nib
  ok (branch (set_child new_branch_child_arr nib node) branch_v)
fill_branch (both_branch_children (nib_1, node_1) (nib_2, node_2)) = do
  in_array nib_1
  in_array nib_2
  ok (branch (set_child (set_child new_branch_child_arr nib_1 node_1) nib_2 node_2) [])

pub place_branch_and_potentially_ext_prefix :
    ExistingAndNewNodePreAndPost → Node → InsertEntry → TrieOpResult Node
unfolding check_if_existing_or_new_node_should_go_in_branch_value_field fill_branch
place_branch_and_potentially_ext_prefix info existing_node new_node = do
  placement ←
      check_if_existing_or_new_node_should_go_in_branch_value_field info existing_node new_node
  node ← fill_branch placement
  ok (if info.common_prefix.count == 0 then node else extension info.common_prefix node)

-- The result's `Option` is the source's: every success carries a node.
pub insert_into_trie_rec : Node → InsertEntry → TrieOpResult (Option Node)
insert_into_trie_rec empty new_node =
    ok (some (create_node_from_insert_val new_node.nibbles new_node.v))
insert_into_trie_rec (hash h) new_node = err (hash_node_insert_error h)
insert_into_trie_rec (branch children value) new_node =
    let at_branch : TrieOpResult (Option Node) = (do
      node ← branch_from_insert_val children new_node.v
      ok (some node)) in
    let below : TrieOpResult (Option Node) = (do
      (nibble, rest) ← call (pop_next_nibble_front new_node.nibbles)
      in_array nibble
      updated ← insert_into_trie_rec (children nibble) (record { nibbles = rest; v = new_node.v })
      ok (Option.map (λ child. branch (set_child children nibble child) value) updated)) in
    if new_node.nibbles.count == 0 then at_branch else below
insert_into_trie_rec (extension nibbles child) new_node = do
  info ← get_pre_and_postfixes_for_existing_and_new_nodes nibbles new_node.nibbles
  identical ← call (nibbles_are_identical_up_to_smallest_count nibbles new_node.nibbles)
  let below : TrieOpResult (Option Node) = do
    rest ← call (truncate_n_nibbles_front new_node.nibbles nibbles.count)
    updated ← insert_into_trie_rec child (record { nibbles = rest; v = new_node.v })
    ok (Option.map (extension nibbles) updated)
  let fork : TrieOpResult (Option Node) = do
    adjusted ← call (truncate_n_nibbles_front info.existing_postfix 1)
    let existing = if adjusted.count == 0 then child else extension adjusted child
    node ← place_branch_and_potentially_ext_prefix info existing new_node
    ok (some node)
  if identical then below else fork
insert_into_trie_rec (leaf nibbles value) new_node =
    let replaced : TrieOpResult (Option Node) = (do
      node ← leaf_from_insert_val nibbles new_node.v
      ok (some node)) in
    let fork : TrieOpResult (Option Node) = (do
      info ← get_pre_and_postfixes_for_existing_and_new_nodes nibbles new_node.nibbles
      rest ← call (truncate_n_nibbles_front nibbles (info.common_prefix.count + 1))
      node ← place_branch_and_potentially_ext_prefix info (leaf rest value) new_node
      ok (some node)) in
    if nibbles_eq nibbles new_node.nibbles then replaced else fork

-- `unwrap` on the result of the recursion.
abbrev pub unwrap : Option Node → TrieOpResult Node
unwrap none = panic
unwrap (some node) = ok node

pub trie_insert : Node → Nibbles → ValOrHash → TrieOpResult Node
trie_insert self k v = do
  node_ref ← insert_into_trie_rec self (record { nibbles = k; v = v })
  unwrap node_ref

pub trie_extend : Node → List (Nibbles × ValOrHash) → TrieOpResult Node
unfolding trie_insert
trie_extend self [] = ok self
trie_extend self ((k, v) ∷ nodes) = do next ← trie_insert self k v; trie_extend next nodes

-- `from_iter_common` of mpt_trie/src/partial_trie.rs.
pub from_iter_common : List (Nibbles × ValOrHash) → TrieOpResult Node
from_iter_common nodes = trie_extend empty nodes
