-- ===== src/TraceDecoder/Type1/Running.antt =====
-- The instructions of a witness tree, run by the stack machine, build the tree.
use zk_evm.Prelude.{
  ℕ, zero, suc, ◌≤◌, ◌<◌, ◌≡◌, refl, ap, sym, ◌∙◌, arith, true, false, Option, none, some, List, [],
  ◌∷◌, ◌++◌, append_assoc, append-nil,
}
use zk_evm.TraceDecoder.Wire.{Key, Instruction, extension, branch, account_leaf, new_trie}
use zk_evm.TraceDecoder.Type1.{
  AccountCode, hash_of_code, raw_code, Node, hash_node, leaf_node, extension_node, branch_node,
  code_node, empty_node, value, account, Child, absent, present, Stack, ok, Execution, to_execution,
  step, finish_stack, execute_loop, execute,
}
use zk_evm.TraceDecoder.Type1.Encoding.{
  has_code, is_present, mask_of, encode_children, encode, encode_leaf, encode_child, WellFormed,
  WellFormedLeaf, WellFormedChild,
}
use zk_evm.TraceDecoder.Type1.Branches.{push_child, stacked, branch_loop-stacked}

-- Instructions that put something on the stack, whatever follows them.
abbrev Builds : List Instruction → (Stack → Stack) → Type 0
Builds is effect =
    (rest : List Instruction) (ws : List Execution) (stack : Stack)
    → execute_loop (is ++ rest) ws stack ≡ execute_loop rest ws (effect stack)

run-children :
    (k : ℕ) (f : ℕ → Child)
    → ((i : ℕ) → i < k → Builds (encode_child (f i)) (push_child (f i)))
    → Builds (encode_children k (λ i. encode_child (f i))) (stacked k f)
unfolding encode_children
run-children zero f each rest ws stack = refl
run-children (suc k) f each rest ws stack =
    ap (λ is. execute_loop is ws stack)
      (append_assoc (encode_children k (λ i. encode_child (f i))) (encode_child (f k)) rest)
    ∙ (run-children k f (λ i to. each i (omega arith)) (encode_child (f k) ++ rest) ws stack
        ∙ each k (omega arith) rest ws (stacked k f stack))

-- An instruction behind others.
run-last :
    (is : List Instruction) (i : Instruction) (rest : List Instruction) (ws : List Execution)
    (stack : Stack) (effect : Stack → Stack)
    → Builds is effect
    → execute_loop ((is ++ (i ∷ [])) ++ rest) ws stack ≡ execute_loop (i ∷ rest) ws (effect stack)
run-last is i rest ws stack effect builds =
    ap (λ all. execute_loop all ws stack) (append_assoc is (i ∷ []) rest)
    ∙ builds (i ∷ rest) ws stack

run-branch :
    (f : ℕ → Child)
    → ((i : ℕ) → 16 ≤ i → f i ≡ absent)
    → (rest : List Instruction) (ws : List Execution) (stack : Stack)
    → execute_loop (branch (mask_of 16 0 f) ∷ rest) ws (stacked 16 f stack)
      ≡ execute_loop rest ws (branch_node f ∷ stack)
unfolding execute_loop step
run-branch f h rest ws stack = rw (branch_loop-stacked f stack h) refl

abbrev push_code : Option AccountCode → Stack → Stack
push_code none stack = stack
push_code (some (hash_of_code h)) stack = hash_node h ∷ stack
push_code (some (raw_code c)) stack = code_node c ∷ stack

last-account :
    (key : Key) (nonce balance : ℕ) (storage : Child) (c : Option AccountCode)
    (rest : List Instruction) (ws : List Execution) (stack : Stack)
    → execute_loop
        (account_leaf key (some nonce) (some balance) (has_code c) (is_present storage) ∷ rest)
        ws
        (push_child storage (push_code c stack))
      ≡ execute_loop rest ws (leaf_node key (account nonce balance storage c) ∷ stack)
unfolding execute_loop step
last-account key nonce balance absent none rest ws stack = refl
last-account key nonce balance absent (some (hash_of_code h)) rest ws stack = refl
last-account key nonce balance absent (some (raw_code c)) rest ws stack = refl
last-account key nonce balance (present n) none rest ws stack = refl
last-account key nonce balance (present n) (some (hash_of_code h)) rest ws stack = refl
last-account key nonce balance (present n) (some (raw_code c)) rest ws stack = refl

run-account :
    (key : Key) (nonce balance : ℕ) (storage : Child) (c : Option AccountCode)
    → Builds (encode_child storage) (push_child storage)
    → Builds
        (encode_leaf key (account nonce balance storage c))
        (λ stack. leaf_node key (account nonce balance storage c) ∷ stack)
unfolding execute_loop step encode_leaf
run-account key nonce balance storage none builds rest ws stack =
    run-last (encode_child storage)
      (account_leaf key (some nonce) (some balance) false (is_present storage)) rest ws stack
      (push_child storage) builds
    ∙ last-account key nonce balance storage none rest ws stack
run-account key nonce balance storage (some (hash_of_code h)) builds rest ws stack =
    run-last (encode_child storage)
      (account_leaf key (some nonce) (some balance) true (is_present storage)) rest ws
      (hash_node h ∷ stack) (push_child storage) builds
    ∙ last-account key nonce balance storage (some (hash_of_code h)) rest ws stack
run-account key nonce balance storage (some (raw_code c)) builds rest ws stack =
    run-last (encode_child storage)
      (account_leaf key (some nonce) (some balance) true (is_present storage)) rest ws
      (code_node c ∷ stack) (push_child storage) builds
    ∙ last-account key nonce balance storage (some (raw_code c)) rest ws stack

mutual
  unfolding encode encode_leaf WellFormed WellFormedLeaf WellFormedChild execute_loop step

  run-encode : (n : Node) → WellFormed n → Builds (encode n) (λ stack. n ∷ stack)
  run-encode (hash_node h) w rest ws stack = refl
  run-encode (leaf_node key (value v)) w rest ws stack = refl
  run-encode (leaf_node key (account nonce balance storage c)) w rest ws stack =
      run-account key nonce balance storage c (run-child storage w) rest ws stack
  run-encode (extension_node key child) w rest ws stack =
      run-last (encode child) (extension key) rest ws stack (λ s. child ∷ s) (run-encode child w)
  run-encode (branch_node f) (each, beyond) rest ws stack =
      run-last (encode_children 16 (λ i. encode_child (f i))) (branch (mask_of 16 0 f)) rest ws
        stack (stacked 16 f) (run-children 16 f (λ i to. run-child (f i) (each i to)))
      ∙ run-branch f beyond rest ws stack
  run-encode (code_node c) w rest ws stack = refl
  run-encode empty_node w rest ws stack = refl

  run-child : (c : Child) → WellFormedChild c → Builds (encode_child c) (push_child c)
  run-child absent w rest ws stack = refl
  run-child (present n) w rest ws stack = run-encode n w rest ws stack

-- The instructions of several trees, in order.
unfoldable pub encode_all : Node → List Node → List Instruction
encode_all n [] = encode n
encode_all n (next ∷ nodes) = encode n ++ (new_trie ∷ encode_all next nodes)

-- Trees that an execution can end with.
abbrev pub IsTerminal : Node → Execution → Type 0
IsTerminal n w = WellFormed n × (to_execution n ≡ ok w)

abbrev pub AreTerminal : List Node → List Execution → Type 0
AreTerminal [] [] = Unit
AreTerminal (n ∷ nodes) (w ∷ ws) = IsTerminal n w × AreTerminal nodes ws
AreTerminal nodes ws = ⊥

execute_loop-encode_all :
    (n : Node) (nodes : List Node) (w : Execution) (ws before : List Execution)
    → IsTerminal n w
    → AreTerminal nodes ws
    → execute_loop (encode_all n nodes) before [] ≡ ok (before ++ (w ∷ ws))
unfolding execute_loop encode_all finish_stack
execute_loop-encode_all n [] w [] before (well, e) t =
    ap (λ is. execute_loop is before []) (sym (append-nil (encode n)))
    ∙ (run-encode n well [] before [] ∙ rw e refl)
execute_loop-encode_all n (next ∷ nodes) w (v ∷ ws) before (well, e) (t, ts) =
    run-encode n well (new_trie ∷ encode_all next nodes) before []
    ∙ rw e (
        execute_loop-encode_all next nodes v ws (before ++ (w ∷ [])) t ts
        ∙ ap (λ all. ok all) (append_assoc before (w ∷ []) (v ∷ ws)))
execute_loop-encode_all n nodes w ws before i t = absurd t

-- The instructions of witness trees, each behind its parts and one tree after the other: the stack
-- machine succeeds on them and returns the trees, if none of them is a hash or code.
pub execute-encode_all :
    (n : Node) (nodes : List Node) (w : Execution) (ws : List Execution)
    → IsTerminal n w
    → AreTerminal nodes ws
    → execute (encode_all n nodes) ≡ ok (w ∷ ws)
unfolding execute
execute-encode_all n nodes w ws i t = execute_loop-encode_all n nodes w ws [] i t
