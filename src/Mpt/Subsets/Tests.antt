-- ===== src/Mpt/Subsets/Tests.antt =====
-- Subsets of a concrete trie, with a stand-in for RLP that writes 40 bytes and one for keccak.
use zk_evm.Prelude.{
  ℕ, zero, suc, ◌+◌, ◌≡◌, refl, arith, Bool, true, false, List, [], ◌∷◌, length, map, ◌==◌,
  if◌then◌else◌,
}
use zk_evm.Mpt.Nibbles.Access.{is_empty-cons}
use zk_evm.Mpt.Nibbles.Value.{nib}
use zk_evm.Mpt.Node.{Bytes, H256, Node, leaf, branch, empty}
use zk_evm.Mpt.Trie.Meaning.{Fixed, Hashless}
use zk_evm.Mpt.Hashing.{RlpItem, hash_trie}
use zk_evm.Mpt.Subsets.{ok, create_trie_subset, create_trie_subsets}
use zk_evm.Mpt.Subsets.Marks.{hash_trie-create_trie_subset}
use zk_evm.Mpt.Subsets.Resets.{try_each, create_trie_subsets-create_trie_subset}
use zk_evm.Mpt.Nibbles.{Nibbles}

abbrev left_leaf : Node
left_leaf = leaf (nib (2 ∷ [])) (7 ∷ [])

abbrev right_leaf : Node
right_leaf = leaf (nib (9 ∷ [])) (8 ∷ [])

abbrev two_children : ℕ → Node
two_children i = if i == 1 then left_leaf else if i == 5 then right_leaf else empty

abbrev two_leaves : Node
two_leaves = branch two_children []

two_leaves-Fixed : Fixed 2 two_leaves
two_leaves-Fixed = (refl, λ i to. cases (i == 1) (i == 5))
  where
    cases : (c d : Bool) → Fixed 1 (if c then left_leaf else if d then right_leaf else empty)
    cases true d = (2 ∷ [], omega arith, refl, refl)
    cases false true = (9 ∷ [], omega arith, refl, refl)
    cases false false = tt

two_leaves-Hashless : Hashless two_leaves
two_leaves-Hashless = λ i to. cases (i == 1) (i == 5)
  where
    cases : (c d : Bool) → Hashless (if c then left_leaf else if d then right_leaf else empty)
    cases true d = tt
    cases false true = tt
    cases false false = tt

abbrev zeros : ℕ → Bytes
zeros zero = []
zeros (suc n) = 0 ∷ zeros n

abbrev some_list : List RlpItem → Bytes
some_list items = length items ∷ zeros 39

abbrev some_hash : Bytes → H256
some_hash bytes = length bytes + 7

abbrev wanted : List (List ℕ)
wanted = (1 ∷ (2 ∷ [])) ∷ []

hash_trie-create_trie_subset_example :
    (s : Node) × (create_trie_subset some_list [] some_hash two_leaves (map nib wanted) ≡ ok s)
    × (hash_trie some_list [] some_hash s ≡ hash_trie some_list [] some_hash two_leaves)
hash_trie-create_trie_subset_example =
    hash_trie-create_trie_subset some_list [] some_hash two_leaves 2 two_leaves-Fixed
      two_leaves-Hashless (omega arith) wanted ((omega arith, refl), tt)

-- Two lists of keys, each for another leaf.
abbrev wanted_lists : List (List Nibbles)
wanted_lists = map (map nib) (wanted ∷ (((5 ∷ (9 ∷ [])) ∷ []) ∷ []))

create_trie_subsets-create_trie_subset_example :
    create_trie_subsets some_list [] some_hash two_leaves wanted_lists
    ≡ try_each (create_trie_subset some_list [] some_hash two_leaves) wanted_lists
create_trie_subsets-create_trie_subset_example =
    create_trie_subsets-create_trie_subset some_list [] some_hash two_leaves wanted_lists
      (is_empty-cons 1 (2 ∷ []), (is_empty-cons 5 (9 ∷ []), tt))
