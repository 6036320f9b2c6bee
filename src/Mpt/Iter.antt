-- ===== src/Mpt/Iter.antt =====
-- The iterator over the items of a trie, mpt_trie/src/trie_ops.rs. The top of the stack is the
-- head of the list; the outer `none` is a panic, or the end of the fuel.
pub mod Walk
pub mod Visits
pub mod Items
pub mod Keys
mod Tests
use mathlib.Core.Option
use zk_evm.Prelude.{
  map, ℕ, zero, suc, ◌+◌, Bool, true, false, ◌&&◌, Option, none, some, ◌>>=◌, List, [], ◌∷◌, ltb,
  leb, ◌==◌, if◌then◌else◌,
}
use zk_evm.Mpt.Nibbles.{
  Nibbles, new, is_empty, push_nibble_back, merge_nibble, merge_nibbles, truncate_n_nibbles_back,
}
use zk_evm.Mpt.Node.{
  Bytes, Node, empty, hash, branch, extension, leaf, TrieNodeType, hash_type, node_type, ValOrHash,
  val, hash_val, is_empty_bytes,
}
use zk_evm.Mpt.Trie.{nibbles_eq}

pub record BranchStackEntry : Type 0 where
  pub children : ℕ → Node
  pub value : Bytes
  pub curr_nib : ℕ

pub data IterStackEntry : Type 0 where
  root : Node → IterStackEntry
  extension_entry : ℕ → IterStackEntry
  branch_entry : BranchStackEntry → IterStackEntry

pub record PartialTrieIter : Type 0 where
  pub curr_key_after_last_branch : Nibbles
  pub trie_stack : List IterStackEntry

abbrev pub TrieItem : Type 0
TrieItem = Nibbles × ValOrHash

abbrev pub Visit : Type 0
Visit = Option (PartialTrieIter × Option TrieItem)

-- `TrieNodeType::from(child) == TrieNodeType::Hash`
abbrev pub is_hash_type : TrieNodeType → Bool
is_hash_type hash_type = true
is_hash_type t = false

abbrev pub push_entry : PartialTrieIter → IterStackEntry → PartialTrieIter
push_entry self entry = record {
  curr_key_after_last_branch = self.curr_key_after_last_branch;
  trie_stack = entry ∷ self.trie_stack;
}

unfoldable pub advance_iter_to_next_empty_leaf_or_hash_node :
    PartialTrieIter → Node → Nibbles → Visit
unfolding node_type
advance_iter_to_next_empty_leaf_or_hash_node self empty curr_key = some (self, none)
advance_iter_to_next_empty_leaf_or_hash_node self (hash h) curr_key =
    some (self, some (curr_key, hash_val h))
advance_iter_to_next_empty_leaf_or_hash_node self (branch children value) curr_key = do
  let entry = branch_entry (record { children = children; value = value; curr_nib = 1 })
  let pushed : PartialTrieIter = record {
    curr_key_after_last_branch = curr_key;
    trie_stack = entry ∷ self.trie_stack;
  }
  next_key ← push_nibble_back curr_key 0
  advance_iter_to_next_empty_leaf_or_hash_node pushed (children 0) next_key
advance_iter_to_next_empty_leaf_or_hash_node self (extension nibbles child) curr_key = do
  let pushed = push_entry self (extension_entry nibbles.count)
  merged ← merge_nibbles curr_key nibbles
  advance_iter_to_next_empty_leaf_or_hash_node
      (if is_hash_type (node_type child) then self else pushed) child merged
advance_iter_to_next_empty_leaf_or_hash_node self (leaf nibbles value) curr_key = do
  merged ← merge_nibbles curr_key nibbles
  some (self, some (merged, val value))

-- One round of the loop in `next`, with the popped entry.
unfoldable pub visit : PartialTrieIter → IterStackEntry → Visit
visit self (root node) = advance_iter_to_next_empty_leaf_or_hash_node self node new
visit self (extension_entry num_nibbles) = do
  key ← truncate_n_nibbles_back self.curr_key_after_last_branch num_nibbles
  some (record { curr_key_after_last_branch = key; trie_stack = self.trie_stack }, none)
visit self (branch_entry entry) =
    let key = self.curr_key_after_last_branch in
    let next_entry =
      branch_entry (record {
        children = entry.children;
        value = entry.value;
        curr_nib = entry.curr_nib + 1;
      }) in
    let below : Visit = (do
      updated_key ← merge_nibble key entry.curr_nib
      advance_iter_to_next_empty_leaf_or_hash_node (push_entry self next_entry)
          (entry.children entry.curr_nib) updated_key) in
    let up : Visit = (do
      shorter ← (if is_empty key then some key else truncate_n_nibbles_back key 1)
      some (
        record { curr_key_after_last_branch = shorter; trie_stack = self.trie_stack },
        if is_empty_bytes entry.value then none else some (key, val entry.value),
      )) in
    if leb 1 entry.curr_nib && leb entry.curr_nib 15
    then below
    else if entry.curr_nib == 16
    then up
    else none

-- `next`, whose loop runs until an item is found or the stack is empty.
unfoldable pub next : ℕ → PartialTrieIter → Visit
next zero self = none
next (suc fuel) self = elim self.trie_stack [
  | [] ↦ some (self, none)
  | e ∷ rest ↦ do
    (self', item) ←
        visit
          (record {
            curr_key_after_last_branch = self.curr_key_after_last_branch;
            trie_stack = rest;
          })
          e
    elim item [ none ↦ next fuel self' | some x ↦ some (self', some x) ]
]

-- All items that the iterator gives.
unfoldable pub collect : ℕ → ℕ → PartialTrieIter → Option (List TrieItem)
collect fuel zero self = none
collect fuel (suc left) self = do
  (self', item) ← next fuel self
  elim item [ none ↦ some [] | some x ↦ do rest ← collect fuel left self'; some (x ∷ rest) ]

abbrev pub sum_from : ℕ → ℕ → (ℕ → ℕ) → ℕ
sum_from zero i f = 0
sum_from (suc left) i f = f i + sum_from left (i + 1) f

-- How many rounds the entries that stand for a node take at most.
abbrev pub rounds : Node → ℕ
rounds (branch children value) = sum_from 16 0 (λ i. 1 + rounds (children i))
rounds (extension nibbles child) = 1 + rounds child
rounds node = 0

pub trie_items : Node → Option (List TrieItem)
trie_items self =
    collect (rounds self + 2) (rounds self + 2)
      (record { curr_key_after_last_branch = new; trie_stack = root self ∷ [] })

pub trie_keys : Node → Option (List Nibbles)
unfolding trie_items
trie_keys self =
    Option.map (λ (items : List TrieItem). map (λ (item : TrieItem). item.0) items)
      (trie_items self)

pub trie_values : Node → Option (List ValOrHash)
unfolding trie_items
trie_values self =
    Option.map (λ (items : List TrieItem). map (λ (item : TrieItem). item.1) items)
      (trie_items self)

abbrev pub any {ℓ} : {A : Type ℓ} → (A → Bool) → List A → Bool
any f [] = false
any f (x ∷ xs) = if f x then true else any f xs

pub trie_has_item_by_key : Node → Nibbles → Option Bool
unfolding trie_items
trie_has_item_by_key self k = do
  items ← trie_items self
  some (any (λ (item : TrieItem). nibbles_eq item.0 k) items)
