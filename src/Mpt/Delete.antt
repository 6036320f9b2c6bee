-- ===== src/Mpt/Delete.antt =====
-- mpt_trie/src/trie_ops.rs: deletion from a trie.
pub mod Counting
pub mod Shape
pub mod Branches
pub mod Steps
pub mod Remove
pub mod Reads
mod Tests
use zk_evm.Prelude.{
  ℕ, zero, suc, ◌+◌, Bool, true, false, not, Option, none, some, ◌==◌, ◌&&◌, leb, if◌then◌else◌, [],
}
use zk_evm.Mpt.Nibbles.{
  Nibbles, new, from_nibble, is_empty, pop_next_nibble_front, truncate_n_nibbles_front,
  merge_nibbles, nibbles_are_identical_up_to_smallest_count,
}
use zk_evm.Mpt.Node.{
  Bytes, Node, empty, hash, branch, extension, leaf, node_type, empty_type, OnOrphanedHashNode,
  collapse_to_extension, reject, hash_node_delete_error, hash_node_ext_error,
  extension_collapsed_into_hash_error, TrieOpResult, ok, err, panic, ◌>>=◌, ◌>>◌, call, in_array,
  set_child, node_is_empty,
}
use zk_evm.Mpt.Trie.{nibbles_eq}

-- The children below an index that are not empty.
unfoldable pub count_non_empty : ℕ → (ℕ → Node) → ℕ
count_non_empty zero children = 0
count_non_empty (suc n) children =
    count_non_empty n children + (if node_is_empty (children n) then 0 else 1)

pub get_num_non_empty_children : (ℕ → Node) → ℕ
get_num_non_empty_children children = count_non_empty 16 children

-- The first child from index `i` on, of `left` many, that is not empty and not ours.
unfoldable pub find_other : ℕ → ℕ → (ℕ → Node) → ℕ → Option (ℕ × Node)
find_other zero i children our_nib = none
find_other (suc left) i children our_nib =
    let later = find_other left (i + 1) children our_nib in
    if not (i == our_nib) && not (node_is_empty (children i)) then some (i, children i) else later

pub get_other_non_empty_child_and_nibble_in_two_elem_branch :
    (ℕ → Node) → ℕ → TrieOpResult (ℕ × Node)
get_other_non_empty_child_and_nibble_in_two_elem_branch children our_nib =
    call (find_other 16 0 children our_nib)

pub collapse_ext_node_if_needed : Nibbles → Node → Nibbles → OnOrphanedHashNode → TrieOpResult Node
collapse_ext_node_if_needed ext_nibbles (branch children value) curr_key strategy =
    ok (extension ext_nibbles (branch children value))
collapse_ext_node_if_needed ext_nibbles (extension other_ext_nibbles other_ext_child) curr_key
      strategy =
    do
      nibbles ← call (merge_nibbles ext_nibbles other_ext_nibbles)
      ok (extension nibbles other_ext_child)
collapse_ext_node_if_needed ext_nibbles (leaf leaf_nibbles value) curr_key strategy = do
  nibbles ← call (merge_nibbles ext_nibbles leaf_nibbles)
  ok (leaf nibbles value)
collapse_ext_node_if_needed ext_nibbles (hash h) curr_key collapse_to_extension =
    ok (extension ext_nibbles (hash h))
collapse_ext_node_if_needed ext_nibbles (hash h) curr_key reject = do
  nibbles ← call (merge_nibbles curr_key ext_nibbles)
  err (extension_collapsed_into_hash_error nibbles h)
collapse_ext_node_if_needed ext_nibbles empty curr_key strategy =
    err (hash_node_ext_error (node_type empty))

pub try_collapse_if_extension : Node → Nibbles → OnOrphanedHashNode → TrieOpResult Node
try_collapse_if_extension (extension nibbles child) curr_key strategy =
    collapse_ext_node_if_needed nibbles child curr_key strategy
try_collapse_if_extension node curr_key strategy = ok node

-- The node in place of a branch whose child at `nibble` became `updated_child`.
pub update_branch : (ℕ → Node) → Bytes → ℕ → Node → Nibbles → OnOrphanedHashNode → TrieOpResult Node
update_branch children value nibble updated_child curr_k strategy =
    let stays : TrieOpResult Node = (do
      child ← try_collapse_if_extension updated_child curr_k strategy
      ok (branch (set_child children nibble child) value)) in
    let collapses : TrieOpResult Node = (do
      (child_nibble, non_empty_node) ←
          get_other_non_empty_child_and_nibble_in_two_elem_branch children nibble
      key ← call (from_nibble child_nibble)
      ok (extension key non_empty_node)) in
    if node_is_empty updated_child && leb (get_num_non_empty_children children) 2
    then collapses
    else stays

-- What is done with a deletion below, which may have found nothing.
abbrev pub if_deleted :
    Option (Node × Bytes) → (Node → TrieOpResult Node) → TrieOpResult (Option (Node × Bytes))
if_deleted none update = ok none
if_deleted (some (child, value_deleted)) update = do
  node ← update child
  ok (some (node, value_deleted))

pub delete_intern : Node → Nibbles → OnOrphanedHashNode → TrieOpResult (Option (Node × Bytes))
delete_intern empty curr_k strategy = ok none
delete_intern (hash h) curr_k strategy = err (hash_node_delete_error h)
delete_intern (branch children value) curr_k strategy =
    let below : TrieOpResult (Option (Node × Bytes)) = (do
      (nibble, rest) ← call (pop_next_nibble_front curr_k)
      in_array nibble
      res ← delete_intern (children nibble) rest strategy
      if_deleted res (λ child. update_branch children value nibble child rest strategy)) in
    if is_empty curr_k then ok (some (branch children [], value)) else below
delete_intern (extension ext_nibbles child) curr_k strategy = do
  identical ← call (nibbles_are_identical_up_to_smallest_count ext_nibbles curr_k)
  let below : TrieOpResult (Option (Node × Bytes)) = do
    rest ← call (truncate_n_nibbles_front curr_k ext_nibbles.count)
    res ← delete_intern child rest strategy
    if_deleted res (λ node. collapse_ext_node_if_needed ext_nibbles node rest strategy)
  if identical then below else ok none
delete_intern (leaf nibbles value) curr_k strategy =
    ok (if nibbles_eq nibbles curr_k then some (empty, value) else none)

-- The end of `trie_delete`: the root is collapsed once more.
pub finish_delete :
    Node → OnOrphanedHashNode → Option (Node × Bytes) → TrieOpResult (Node × Option Bytes)
finish_delete self strategy none = ok (self, none)
finish_delete self strategy (some (updated_root, deleted_val)) = do
  node ← try_collapse_if_extension updated_root new strategy
  ok (node, some deleted_val)

-- The trie after the call, and the value that was deleted. On an error the trie is unchanged.
pub trie_delete : Node → Nibbles → OnOrphanedHashNode → TrieOpResult (Node × Option Bytes)
trie_delete self k strategy = do
  res ← delete_intern self k strategy
  finish_delete self strategy res
