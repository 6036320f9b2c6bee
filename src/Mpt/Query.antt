-- ===== src/Mpt/Query.antt =====
-- The path of a key through a trie, mpt_trie/src/special_query.rs. `none` is a panic.
pub mod Paths
mod Tests
use zk_evm.Prelude.{
  ℕ, zero, suc, min, Bool, true, false, Option, none, some, ◌>>=◌, List, [], ◌∷◌, ltb, ◌||◌,
  if◌then◌else◌,
}
use zk_evm.Mpt.Nibbles.{
  Nibbles, is_empty, pop_next_nibble_front, pop_nibbles_front,
  nibbles_are_identical_up_to_smallest_count,
}
use zk_evm.Mpt.Node.{Node, empty, hash, branch, extension, leaf}
use zk_evm.Mpt.Trie.{nibbles_eq}

pub data TrieSegment : Type 0 where
  empty_segment hash_segment : TrieSegment
  branch_segment : ℕ → TrieSegment
  extension_segment leaf_segment : Nibbles → TrieSegment

pub record TriePathIter : Type 0 where
  pub curr_node : Node
  pub curr_key : Nibbles
  pub terminated : Bool
  pub always_include : Bool

abbrev pub stop : TriePathIter → TriePathIter
stop self = record self { terminated = true }

abbrev pub move_to : TriePathIter → Node → Nibbles → TriePathIter
move_to self node key = record self { curr_node = node; curr_key = key }

abbrev pub pop_nibbles_clamped : Nibbles → ℕ → Option (Nibbles × Nibbles)
pop_nibbles_clamped nibbles n = pop_nibbles_front nibbles (min nibbles.count n)

-- The match of `next` on the current node.
unfoldable pub next_segment : TriePathIter → Node → Option (TriePathIter × Option TrieSegment)
next_segment self empty = some (stop self, some empty_segment)
next_segment self (hash h) = some (stop self, some hash_segment)
next_segment self (branch children value) =
    if is_empty self.curr_key
    then some (stop self, none)
    else pop_next_nibble_front self.curr_key >>= λ (nibble, key).
        if ltb nibble 16
        then some (move_to self (children nibble) key, some (branch_segment nibble))
        else none
next_segment self (extension nibbles child) =
    nibbles_are_identical_up_to_smallest_count self.curr_key nibbles >>= λ identical.
    if identical
    then (pop_nibbles_clamped self.curr_key nibbles.count >>= λ (popped, key).
        some (move_to self child key, some (extension_segment nibbles)))
    else some (stop self, if self.always_include then some (extension_segment nibbles) else none)
next_segment self (leaf nibbles value) = some (
  stop self,
  if nibbles_eq self.curr_key nibbles || self.always_include
      then some (leaf_segment nibbles)
      else none,
)

-- All segments, in order, on fuel; without fuel left it panics.
unfoldable pub path_segments : ℕ → TriePathIter → Option (List TrieSegment)
path_segments zero self = none
path_segments (suc fuel) self = elim self.terminated [
  | true ↦ some []
  | false ↦ next_segment self self.curr_node >>= λ (self', item). elim item [
    | none ↦ some []
    | some s ↦ path_segments fuel self' >>= λ rest. some (s ∷ rest)
  ]
]

unfoldable pub path_for_query : Node → Nibbles → Bool → TriePathIter
path_for_query trie k always_include_final_node_if_possible = record {
  curr_node = trie;
  curr_key = k;
  terminated = false;
  always_include = always_include_final_node_if_possible;
}
