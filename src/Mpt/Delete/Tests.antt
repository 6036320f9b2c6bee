-- ===== src/Mpt/Delete/Tests.antt =====
-- The theorems on deletion at a concrete trie: a branch with two leaves, of which one goes.
use zk_evm.Prelude.{
  ℕ, ◌≡◌, refl, arith, List, [], ◌∷◌, length, Option, Bool, true, false, ◌==◌, if◌then◌else◌,
}
use zk_evm.Mpt.Nibbles.Value.{nib, IsNibs}
use zk_evm.Mpt.Trie.Compact.{IsCompact}
use zk_evm.Mpt.Node.{Node, empty, branch, leaf, Bytes, ok, set_child, new_branch_child_arr, reject}
use zk_evm.Mpt.Trie.{trie_get}
use zk_evm.Mpt.Trie.Meaning.{Fixed, Hashless}
use zk_evm.Mpt.Delete.{trie_delete}
use zk_evm.Mpt.Delete.Remove.{DeleteOutcome, trie_delete-DeleteOutcome}
use zk_evm.Prelude.{none}
use zk_evm.Mpt.Trie.{from_iter_common}
use zk_evm.Mpt.Trie.Extend.{entries, replay}
use zk_evm.Mpt.Delete.Steps.{without}
use zk_evm.Mpt.Delete.Reads.{trie_delete-from_iter_common, read_without, trie_get-trie_delete}

abbrev left_key : List ℕ
left_key = 1 ∷ 5 ∷ []

abbrev left_leaf : Node
left_leaf = leaf (nib (5 ∷ [])) (7 ∷ [])

abbrev right_leaf : Node
right_leaf = leaf (nib (6 ∷ [])) (8 ∷ [])

abbrev two_leaves : Node
two_leaves = branch (set_child (set_child new_branch_child_arr 1 left_leaf) 2 right_leaf) []

two_leaves-Fixed : Fixed 2 two_leaves
two_leaves-Fixed = (refl, λ i h. cases (i == 2) (i == 1))
  where
    cases : (c d : Bool) → Fixed 1 (if c then right_leaf else if d then left_leaf else empty)
    cases true d = (6 ∷ [], omega arith, refl, refl)
    cases false true = (5 ∷ [], omega arith, refl, refl)
    cases false false = tt

two_leaves-Hashless : Hashless two_leaves
two_leaves-Hashless i h = cases (i == 2) (i == 1)
  where
    cases : (c d : Bool) → Hashless (if c then right_leaf else if d then left_leaf else empty)
    cases true d = tt
    cases false true = tt
    cases false false = tt

two_leaves-IsCompact : IsCompact two_leaves
two_leaves-IsCompact = (
  1,
  2,
  omega arith,
  omega arith,
  (λ e. absurd (omega arith)),
  refl,
  refl,
  λ m h. cases (m == 2) (m == 1),
)
  where
    cases : (c d : Bool) → IsCompact (if c then right_leaf else if d then left_leaf else empty)
    cases true d = tt
    cases false true = tt
    cases false false = tt

trie_delete-DeleteOutcome_example :
    DeleteOutcome 2 two_leaves left_key (trie_delete two_leaves (nib left_key) reject)
trie_delete-DeleteOutcome_example =
    trie_delete-DeleteOutcome two_leaves 2 left_key reject two_leaves-Fixed two_leaves-Hashless
      two_leaves-IsCompact (omega arith) refl (omega arith)

trie_get-trie_delete_example :
    (t' : Node) × (v : Option Bytes) × (trie_get two_leaves (nib left_key) ≡ ok v)
    × (trie_delete two_leaves (nib left_key) reject ≡ ok (t', v))
    × ((q : List ℕ)
        → IsNibs q
        → length q ≡ 2
        → trie_get t' (nib q) ≡ read_without q left_key (trie_get two_leaves (nib q)))
trie_get-trie_delete_example =
    trie_get-trie_delete two_leaves 2 left_key reject two_leaves-Fixed two_leaves-Hashless
      two_leaves-IsCompact (omega arith) refl (omega arith)

abbrev two_entries : List (List ℕ × Bytes)
two_entries = (left_key, 7 ∷ []) ∷ (2 ∷ 6 ∷ [], 8 ∷ []) ∷ []

trie_delete-from_iter_common_example :
    (t : Node) × (t' : Node) × (from_iter_common (entries two_entries) ≡ ok t)
    × (trie_delete t (nib left_key) reject ≡ ok (t', replay two_entries (λ q. none) left_key))
    × ((q : List ℕ)
        → IsNibs q
        → length q ≡ 2
        → trie_get t' (nib q) ≡ ok (without (replay two_entries (λ q. none)) left_key q))
trie_delete-from_iter_common_example =
    trie_delete-from_iter_common 2 two_entries left_key reject (omega arith)
      (omega arith, refl, (omega arith, refl, tt)) (omega arith) refl
