-- ===== src/Mpt/Query/Tests.antt =====
-- The path of a key on a concrete trie.
use zk_evm.Prelude.{ℕ, ◌≡◌, refl, arith, false, some, List, [], ◌∷◌}
use zk_evm.Mpt.Nibbles.Value.{nib}
use zk_evm.Mpt.Node.{Node, leaf}
use zk_evm.Mpt.Trie.Meaning.{lookup}
use zk_evm.Mpt.Query.{TrieSegment, path_segments, path_for_query}
use zk_evm.Mpt.Query.Paths.{reaches_leaf, is_found, path_segments-lookup}

abbrev key : List ℕ
key = 1 ∷ 2 ∷ 3 ∷ 4 ∷ []

abbrev one_leaf : Node
one_leaf = leaf (nib key) (7 ∷ [])

path_segments-lookup_example :
    (segments : List TrieSegment) × (path_segments 7 (path_for_query one_leaf (nib key) false)
      ≡ some segments)
    × (reaches_leaf segments ≡ is_found (lookup one_leaf key))
path_segments-lookup_example =
    path_segments-lookup one_leaf 4 key 7
      (key, (omega arith, (omega arith, (omega arith, (omega arith, tt)))), refl, refl)
      (omega arith, (omega arith, (omega arith, (omega arith, tt)))) refl (omega arith)
      (omega arith)
