-- ===== src/Mpt/Trie/Tests.antt =====
-- The theorems on lookup and insertion at concrete tries.
use zk_evm.Prelude.{ℕ, ◌≡◌, refl, arith, List, [], ◌∷◌, none, length}
use zk_evm.Mpt.Nibbles.Value.{nib, IsNibs}
use zk_evm.Mpt.Node.{Node, leaf, Bytes, ok, val}
use zk_evm.Mpt.Trie.{trie_get, trie_insert, from_iter_common}
use zk_evm.Mpt.Trie.Meaning.{lookup}
use zk_evm.Mpt.Trie.Get.{trie_get-lookup}
use zk_evm.Mpt.Trie.InsertSteps.{blocked}
use zk_evm.Mpt.Trie.Insert.{InsertOutcome, trie_insert-InsertOutcome}
use zk_evm.Mpt.Trie.Extend.{
  entries, replay, read_after, trie_get-trie_insert, from_iter_common-replay,
}

abbrev k1 : List ℕ
k1 = 1 ∷ 2 ∷ 3 ∷ 4 ∷ []

abbrev k2 : List ℕ
k2 = 1 ∷ 2 ∷ 5 ∷ 4 ∷ []

abbrev one_leaf : Node
one_leaf = leaf (nib k1) (7 ∷ [])

abbrev two_entries : List (List ℕ × Bytes)
two_entries = (k1, 7 ∷ []) ∷ (k2, 8 ∷ []) ∷ []

trie_get-lookup_example : trie_get one_leaf (nib k1) ≡ ok (lookup one_leaf k1)
trie_get-lookup_example =
    trie_get-lookup one_leaf 4 k1 (k1, omega arith, refl, refl) (omega arith) refl (omega arith)

trie_insert-InsertOutcome_example :
    InsertOutcome 4 one_leaf k2
      (8 ∷ [])
      (blocked one_leaf k2)
      (trie_insert one_leaf (nib k2) (val (8 ∷ [])))
trie_insert-InsertOutcome_example =
    trie_insert-InsertOutcome one_leaf 4 k2 (8 ∷ []) (k1, omega arith, refl, refl) (omega arith)
      refl (omega arith)

trie_get-trie_insert_example :
    (t' : Node) × (trie_insert one_leaf (nib k2) (val (8 ∷ [])) ≡ ok t')
    × ((q : List ℕ)
        → IsNibs q
        → length q ≡ 4
        → trie_get t' (nib q) ≡ read_after q k2 (8 ∷ []) (trie_get one_leaf (nib q)))
trie_get-trie_insert_example =
    trie_get-trie_insert 4 (omega arith) one_leaf k2 (8 ∷ []) (k1, omega arith, refl, refl) tt
      (omega arith) refl

from_iter_common-replay_example :
    (t : Node) × (from_iter_common (entries two_entries) ≡ ok t)
    × ((q : List ℕ)
        → IsNibs q
        → length q ≡ 4
        → trie_get t (nib q) ≡ ok (replay two_entries (λ k. none) q))
from_iter_common-replay_example =
    from_iter_common-replay 4 (omega arith) two_entries (omega arith, refl, (omega arith, refl, tt))
