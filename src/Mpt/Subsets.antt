-- ===== src/Mpt/Subsets.antt =====
-- mpt_trie/src/trie_subsets.rs, on tries that do not cache their hashes. A function that changes a
-- tracked trie returns the new one.
pub mod Hashes
pub mod Marks
pub mod Resets
mod Tests
use mathlib.Core.Option
use zk_evm.Prelude.{
  ℕ, zero, suc, ◌+◌, ◌==◌, Bool, true, false, Option, none, some, List, [], ◌∷◌, ltb, if◌then◌else◌,
}
use zk_evm.Mpt.Nibbles.{
  Nibbles, is_empty, pop_next_nibble_front, pop_nibbles_front,
  nibbles_are_identical_up_to_smallest_count,
}
use zk_evm.Mpt.Node.{Bytes, H256, Node, empty, hash, branch, extension, leaf}
use zk_evm.Mpt.Hashing.{EncodedNode, raw, hashed, RlpItem, rlp_encode_and_hash_node}

pub record TrackedNodeInfo : Type 0 where
  pub underlying_node : Node
  pub touched : Bool

mutual
  pub data TrackedNodeIntern : Type 0 where
    tracked_empty tracked_hash tracked_leaf : TrackedNodeIntern
    tracked_branch : (ℕ → TrackedNode) → TrackedNodeIntern
    tracked_extension : TrackedNode → TrackedNodeIntern

  pub data TrackedNode : Type 0 where
    tracked : TrackedNodeIntern → TrackedNodeInfo → TrackedNode

abbrev pub new_info : Node → TrackedNodeInfo
new_info n = record { underlying_node = n; touched = false }

abbrev pub touch : TrackedNodeInfo → TrackedNodeInfo
touch info = record { underlying_node = info.underlying_node; touched = true }

abbrev pub reset : TrackedNodeInfo → TrackedNodeInfo
reset info = record { underlying_node = info.underlying_node; touched = false }

unfoldable pub track : Node → TrackedNode
track empty = tracked tracked_empty (new_info empty)
track (hash h) = tracked tracked_hash (new_info (hash h))
track (branch children value) =
    tracked (tracked_branch (λ i. track (children i))) (new_info (branch children value))
track (extension nibbles child) =
    tracked (tracked_extension (track child)) (new_info (extension nibbles child))
track (leaf nibbles value) = tracked tracked_leaf (new_info (leaf nibbles value))

-- The error is a hash node on the way of a key, without the debug output; the last case is a panic.
pub data SubsetTrieResult {ℓ} (A : Type ℓ) : Type ℓ where
  ok : A → SubsetTrieResult A
  hash_on_path : SubsetTrieResult A
  panic : SubsetTrieResult A

infixl 5 ◌>>=◌
abbrev pub ◌>>=◌ {ℓ κ} :
    {A : Type ℓ} {B : Type κ} → SubsetTrieResult A → (A → SubsetTrieResult B) → SubsetTrieResult B
ok a >>= f = f a
hash_on_path >>= f = hash_on_path
panic >>= f = panic

abbrev pub call {ℓ} : {A : Type ℓ} → Option A → SubsetTrieResult A
call none = panic
call (some a) = ok a

abbrev pub get_nibbles_expected : Node → Option Nibbles
get_nibbles_expected (extension nibbles child) = some nibbles
get_nibbles_expected (leaf nibbles value) = some nibbles
get_nibbles_expected n = none

abbrev pub get_hash_node_hash_expected : Node → Option H256
get_hash_node_hash_expected (hash h) = some h
get_hash_node_hash_expected n = none

abbrev pub get_branch_value_expected : Node → Option Bytes
get_branch_value_expected (branch children value) = some value
get_branch_value_expected n = none

abbrev pub get_leaf_nibbles_and_value_expected : Node → Option (Nibbles × Bytes)
get_leaf_nibbles_and_value_expected (leaf nibbles value) = some (nibbles, value)
get_leaf_nibbles_and_value_expected n = none

abbrev pub set_tracked : (ℕ → TrackedNode) → ℕ → TrackedNode → ℕ → TrackedNode
set_tracked children i t j = if j == i then t else children j

unfoldable pub mark_nodes_that_are_needed : TrackedNode → Nibbles → SubsetTrieResult TrackedNode
mark_nodes_that_are_needed (tracked tracked_empty info) curr =
    ok (tracked tracked_empty (touch info))
mark_nodes_that_are_needed (tracked tracked_hash info) curr =
    if is_empty curr then ok (tracked tracked_hash (touch info)) else hash_on_path
mark_nodes_that_are_needed (tracked (tracked_branch children) info) curr =
    let below : SubsetTrieResult TrackedNode = (do
      (nib, rest) ← call (pop_next_nibble_front curr)
      child ← (if ltb nib 16 then mark_nodes_that_are_needed (children nib) rest else panic)
      ok (tracked (tracked_branch (set_tracked children nib child)) (touch info))) in
    if is_empty curr then ok (tracked (tracked_branch children) (touch info)) else below
mark_nodes_that_are_needed (tracked (tracked_extension child) info) curr =
    let below : SubsetTrieResult TrackedNode = (do
      nibbles ← call (get_nibbles_expected info.underlying_node)
      identical ← call (nibbles_are_identical_up_to_smallest_count curr nibbles)
      let further : SubsetTrieResult TrackedNode = (do
        (front, rest) ← call (pop_nibbles_front curr nibbles.count)
        child' ← mark_nodes_that_are_needed child rest
        ok (tracked (tracked_extension child') (touch info)))
      if identical then further else ok (tracked (tracked_extension child) (touch info))) in
    if is_empty curr then ok (tracked (tracked_extension child) info) else below
mark_nodes_that_are_needed (tracked tracked_leaf info) curr = ok (tracked tracked_leaf (touch info))

-- `for k in keys_involved`
unfoldable pub mark_all : TrackedNode → List Nibbles → SubsetTrieResult TrackedNode
mark_all t [] = ok t
mark_all t (k ∷ ks) = do t' ← mark_nodes_that_are_needed t k; mark_all t' ks

abbrev pub reset_info : TrackedNode → TrackedNode
reset_info (tracked n info) = tracked n (reset info)

-- A node's own mark is not read while the nodes below it are reset, so the order does not matter.
unfoldable pub reset_tracked_trie_state : TrackedNode → TrackedNode
reset_tracked_trie_state (tracked (tracked_branch children) info) =
    tracked (tracked_branch (λ i. reset_info (reset_tracked_trie_state (children i)))) info
reset_tracked_trie_state (tracked (tracked_extension child) info) =
    tracked (tracked_extension (reset_info (reset_tracked_trie_state child))) info
reset_tracked_trie_state (tracked n info) = tracked n (reset info)

abbrev pub and_then {ℓ κ} : {A : Type ℓ} {B : Type κ} → Option A → (A → Option B) → Option B
and_then none f = none
and_then (some a) f = f a

-- An array of children, any of which may panic.
abbrev pub child_array : ℕ → ℕ → (ℕ → Option Node) → Option (ℕ → Node)
child_array zero i f = some (λ j. empty)
child_array (suc left) i f =
    and_then (f i) (λ n.
      and_then (child_array left (i + 1) f) (λ rest. some (λ j. if j == i then n else rest j)))

module _ (rlp_list : List RlpItem → Bytes) (null_rlp : Bytes) (keccak : Bytes → H256) where
  abbrev pub encode : Node → Option EncodedNode
  encode node = rlp_encode_and_hash_node rlp_list null_rlp keccak node

  abbrev pub hashed_or : Option EncodedNode → Option Node → Option Node
  hashed_or none kept = none
  hashed_or (some (hashed h)) kept = some (hash h)
  hashed_or (some (raw b)) kept = kept

  -- A node that is not marked and that is large enough gives way to its hash.
  abbrev pub cut : TrackedNodeInfo → Option Node → Option Node
  cut info kept = if info.touched then kept else hashed_or (encode info.underlying_node) kept

  unfoldable pub create_partial_trie_subset_from_tracked_trie : TrackedNode → Option Node
  create_partial_trie_subset_from_tracked_trie (tracked tracked_empty info) = cut info (some empty)
  create_partial_trie_subset_from_tracked_trie (tracked tracked_hash info) =
      cut info (Option.map hash (get_hash_node_hash_expected info.underlying_node))
  create_partial_trie_subset_from_tracked_trie (tracked (tracked_branch children) info) = cut info (
      and_then (child_array 16 0 (λ i. create_partial_trie_subset_from_tracked_trie (children i)))
        (λ array.
          Option.map (λ value. branch array value)
            (get_branch_value_expected info.underlying_node)))
  create_partial_trie_subset_from_tracked_trie (tracked (tracked_extension child) info) = cut info (
      and_then (get_nibbles_expected info.underlying_node) (λ nibbles.
        Option.map (λ c. extension nibbles c) (create_partial_trie_subset_from_tracked_trie child)))
  create_partial_trie_subset_from_tracked_trie (tracked tracked_leaf info) = cut info (
      Option.map (λ ((nibbles, value) : Nibbles × Bytes). leaf nibbles value)
        (get_leaf_nibbles_and_value_expected info.underlying_node))

  -- The subset for some keys, and the marked trie.
  pub create_trie_subset_intern : TrackedNode → List Nibbles → SubsetTrieResult (Node × TrackedNode)
  create_trie_subset_intern t keys = do
    t' ← mark_all t keys
    res ← call (create_partial_trie_subset_from_tracked_trie t')
    ok (res, t')

  pub create_trie_subset : Node → List Nibbles → SubsetTrieResult Node
  unfolding create_trie_subset_intern
  create_trie_subset trie keys = do (res, t) ← create_trie_subset_intern (track trie) keys; ok res

  unfoldable pub subsets_loop : TrackedNode → List (List Nibbles) → SubsetTrieResult (List Node)
  unfolding create_trie_subset_intern
  subsets_loop t [] = ok []
  subsets_loop t (ks ∷ kss) = do
    (res, t') ← create_trie_subset_intern t ks
    rest ← subsets_loop (reset_tracked_trie_state t') kss
    ok (res ∷ rest)

  pub create_trie_subsets : Node → List (List Nibbles) → SubsetTrieResult (List Node)
  create_trie_subsets trie keys = subsets_loop (track trie) keys
