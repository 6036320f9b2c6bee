-- ===== src/TraceDecoder/Tests.antt =====
-- A witness tree with an account, its code and its storage.
use zk_evm.Prelude.{
  ℕ, ◌≤◌, ◌≡◌, refl, arith, Bool, true, false, some, [], ◌∷◌, ◌++◌, ◌==◌, if◌then◌else◌,
}
use zk_evm.TraceDecoder.Wire.{Key, branch, hash, extension}
use zk_evm.TraceDecoder.Type1.{
  Node, leaf_node, hash_node, extension_node, branch_node, empty_node, value, account, hash_of_code,
  Child, absent, present, branch_execution, empty_execution, ok, execute,
}
use zk_evm.TraceDecoder.Type1.Encoding.{WellFormed, WellFormedChild}
use zk_evm.TraceDecoder.Type1.Running.{encode_all, execute-encode_all}
use zk_evm.TraceDecoder.Type1.Rejecting.{Fails, execute-Fails}

abbrev one : ℕ → Key
one n = record { first = n; others = [] }

abbrev storage : Node
storage = extension_node (one 3) (leaf_node (one 4) (value (one 9)))

abbrev contract : Node
contract = leaf_node (one 5) (account 1 7 (present storage) (some (hash_of_code (8 ∷ []))))

abbrev children : ℕ → Child
children i =
    if i == 2 then present contract else if i == 9 then present (hash_node (6 ∷ [])) else absent

abbrev tree : Node
tree = branch_node children

tree-WellFormed : WellFormed tree
unfolding WellFormed WellFormedChild
tree-WellFormed = (λ i to. inside (i == 2) (i == 9), λ i from. outside i from)
  where
    inside :
        (c d : Bool)
        → WellFormedChild
            (if c then present contract else if d then present (hash_node (6 ∷ [])) else absent)
    inside true d = tt
    inside false true = tt
    inside false false = tt

    outside : (i : ℕ) → 16 ≤ i → children i ≡ absent
    outside i from = ground (arith, from)

execute-encode_all_example :
    execute (encode_all tree (empty_node ∷ []))
    ≡ ok (branch_execution children ∷ (empty_execution ∷ []))
unfolding WellFormed
execute-encode_all_example =
    execute-encode_all tree (empty_node ∷ []) (branch_execution children) (empty_execution ∷ [])
      (tree-WellFormed, refl) ((tt, refl), tt)

execute-Fails_example :
    Fails (execute ((hash (6 ∷ []) ∷ []) ++ (branch 65536 ∷ (extension (one 3) ∷ []))))
execute-Fails_example =
    execute-Fails (hash (6 ∷ []) ∷ []) (branch 65536) (extension (one 3) ∷ []) (omega arith)
