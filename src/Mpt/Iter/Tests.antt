-- ===== src/Mpt/Iter/Tests.antt =====
-- The iterator on a concrete trie, and the theorems about it there.
use zk_evm.Prelude.{
  ℕ, ◌≡◌, refl, arith, Bool, true, false, Option, some, [], ◌∷◌, ◌==◌, if◌then◌else◌,
}
use zk_evm.Mpt.Nibbles.Value.{nib}
use zk_evm.Mpt.Node.{Node, leaf, branch, extension, empty, Bytes, ok}
use zk_evm.Mpt.Trie.{trie_get}
use zk_evm.Mpt.Iter.{trie_items, trie_has_item_by_key}
use zk_evm.Mpt.Iter.Walk.{walk}
use zk_evm.Mpt.Iter.Items.{trie_items-walk}
use zk_evm.Mpt.Iter.Keys.{present, Fixed-Fits, trie_has_item_by_key-trie_get}
use zk_evm.Mpt.Trie.Meaning.{Fixed, Hashless}
use zk_evm.Mpt.Trie.Compact.{IsCompact}

abbrev left_leaf : Node
left_leaf = leaf (nib (2 ∷ [])) (7 ∷ [])

abbrev right_leaf : Node
right_leaf = leaf (nib (9 ∷ [])) (8 ∷ [])

abbrev two_children : ℕ → Node
two_children i = if i == 1 then left_leaf else if i == 5 then right_leaf else empty

abbrev two_leaves : Node
two_leaves = branch two_children []

two_leaves-Fixed : Fixed 2 two_leaves
two_leaves-Fixed = (refl, λ i to. cases (i == 1) (i == 5))
  where
    cases : (c d : Bool) → Fixed 1 (if c then left_leaf else if d then right_leaf else empty)
    cases true d = (2 ∷ [], omega arith, refl, refl)
    cases false true = (9 ∷ [], omega arith, refl, refl)
    cases false false = tt

two_leaves-Hashless : Hashless two_leaves
two_leaves-Hashless = λ i to. cases (i == 1) (i == 5)
  where
    cases : (c d : Bool) → Hashless (if c then left_leaf else if d then right_leaf else empty)
    cases true d = tt
    cases false true = tt
    cases false false = tt

two_leaves-IsCompact : IsCompact two_leaves
two_leaves-IsCompact = (
  1,
  5,
  omega arith,
  omega arith,
  (λ e. absurd (omega arith)),
  refl,
  refl,
  λ i to. cases (i == 1) (i == 5),
)
  where
    cases : (c d : Bool) → IsCompact (if c then left_leaf else if d then right_leaf else empty)
    cases true d = tt
    cases false true = tt
    cases false false = tt

abbrev behind_extension : Node
behind_extension = extension (nib (3 ∷ [])) two_leaves

trie_items-walk_example : trie_items behind_extension ≡ some (walk [] behind_extension)
trie_items-walk_example = trie_items-walk behind_extension (
  3 ∷ [],
  63,
  omega arith,
  refl,
  refl,
  tt,
  Fixed-Fits two_leaves 2 63 two_leaves-Fixed two_leaves-IsCompact (omega arith),
)

trie_has_item_by_key-trie_get_example :
    (answer : Option Bytes) × (trie_get two_leaves (nib (5 ∷ (9 ∷ []))) ≡ ok answer)
    × (trie_has_item_by_key two_leaves (nib (5 ∷ (9 ∷ []))) ≡ some (present answer))
trie_has_item_by_key-trie_get_example =
    trie_has_item_by_key-trie_get two_leaves 2 (5 ∷ (9 ∷ [])) two_leaves-Fixed two_leaves-Hashless
      two_leaves-IsCompact (omega arith) refl (omega arith)
