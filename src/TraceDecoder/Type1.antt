-- ===== src/TraceDecoder/Type1.antt =====
-- The stack machine of trace_decoder/src/type1.rs. The stack and the list of witnesses are passed on;
-- the array of 16 children is a function of the index, where no child stands from 16 on. The texts of
-- the errors are constructors.
pub mod Encoding
pub mod Branches
pub mod Running
pub mod Rejecting
use zk_evm.Prelude.{
  ℕ, zero, suc, ◌/◌, ◌%◌, ◌^◌, Bool, true, false, Option, none, some, List, [], ◌∷◌, ◌++◌, length,
  ltb, ◌==◌, if◌then◌else◌,
}
use zk_evm.TraceDecoder.Wire.{
  Key, RawBytes, Instruction, leaf, extension, branch, hash, code, account_leaf, smt_leaf,
  empty_root, new_trie,
}

pub data AccountCode : Type 0 where
  hash_of_code : List ℕ → AccountCode
  raw_code : RawBytes → AccountCode

mutual
  pub data Node : Type 0 where
    hash_node : List ℕ → Node
    leaf_node : Key → LeafValue → Node
    extension_node : Key → Node → Node
    branch_node : (ℕ → Child) → Node
    code_node : RawBytes → Node
    empty_node : Node

  pub data LeafValue : Type 0 where
    value : RawBytes → LeafValue
    account : ℕ → ℕ → Child → Option AccountCode → LeafValue

  -- `Option<Box<Node>>`.
  pub data Child : Type 0 where
    absent : Child
    present : Node → Child

pub data Execution : Type 0 where
  leaf_execution : Key → LeafValue → Execution
  extension_execution : Key → Node → Execution
  branch_execution : (ℕ → Child) → Execution
  empty_execution : Execution

pub data ExecuteError : Type 0 where
  no_node_for_extension no_node_for_account_leaf no_node_for_branch : ExecuteError
  expected_code_and_node expected_code oob_mask_bit : ExecuteError
  unexpected_smt_leaf expected_terminal : ExecuteError
  expected_single_element : ℕ → ExecuteError

pub data ExecuteResult {ℓ} (A : Type ℓ) : Type ℓ where
  ok : A → ExecuteResult A
  err : ExecuteError → ExecuteResult A

infixl 5 ◌>>=◌
abbrev pub ◌>>=◌ {ℓ κ} :
    {A : Type ℓ} {B : Type κ} → ExecuteResult A → (A → ExecuteResult B) → ExecuteResult B
ok a >>= f = f a
err e >>= f = err e

abbrev pub Stack : Type 0
Stack = List Node

-- `stack.pop().context(..)?`.
abbrev pub pop_node : ExecuteError → Stack → ExecuteResult (Node × Stack)
pop_node e [] = err e
pop_node e (n ∷ stack) = ok (n, stack)

abbrev pub unwrap_or_default : Option ℕ → ℕ
unwrap_or_default none = 0
unwrap_or_default (some n) = n

-- `Some(Node::Hash(..))` or `Some(Node::Code(..))`.
abbrev pub code_of : ExecuteError → Node → ExecuteResult AccountCode
code_of e (hash_node h) = ok (hash_of_code h)
code_of e (code_node c) = ok (raw_code c)
code_of e n = err e

-- The storage and the code of an account, which are taken from the stack.
abbrev pub account_parts : Bool → Bool → Stack → ExecuteResult (Child × Option AccountCode × Stack)
account_parts true true stack = do
  (right, below) ← pop_node expected_code_and_node stack
  (left, rest) ← pop_node expected_code_and_node below
  c ← code_of expected_code_and_node left
  ok (present right, some c, rest)
account_parts false true stack = do
  (storage, rest) ← pop_node no_node_for_account_leaf stack
  ok (present storage, none, rest)
account_parts true false stack = do
  (n, rest) ← pop_node expected_code stack
  c ← code_of expected_code n
  ok (absent, some c, rest)
account_parts false false stack = ok (absent, none, stack)

abbrev pub mask_bit : ℕ → ℕ → Bool
mask_bit mask ix = mask / 2 ^ ix % 2 == 1

abbrev pub set_child : (ℕ → Child) → ℕ → Node → ℕ → Child
set_child children ix n j = if j == ix then present n else children j

-- The loop over the bits of the mask below a number, the highest first. The right side of the
-- assignment to `children[ix]` comes first.
unfoldable pub branch_loop : ℕ → ℕ → (ℕ → Child) → Stack → ExecuteResult ((ℕ → Child) × Stack)
branch_loop zero mask children stack = ok (children, stack)
branch_loop (suc ix) mask children stack = elim (mask_bit mask ix) [
  | false ↦ branch_loop ix mask children stack
  | true ↦ pop_node no_node_for_branch stack >>= λ popped. elim (ltb ix 16) [
    | false ↦ err oob_mask_bit
    | true ↦ branch_loop ix mask (set_child children ix popped.0) popped.1
  ]
]

-- Any instruction but `new_trie`, on which it is not called.
unfoldable pub step : Instruction → Stack → ExecuteResult Stack
step empty_root stack = ok (empty_node ∷ stack)
step (hash raw_hash) stack = ok (hash_node raw_hash ∷ stack)
step (code c) stack = ok (code_node c ∷ stack)
step (leaf key v) stack = ok (leaf_node key (value v) ∷ stack)
step (extension key) stack = do
  (child, rest) ← pop_node no_node_for_extension stack
  ok (extension_node key child ∷ rest)
step (account_leaf key nonce balance has_code has_storage) stack = do
  (storage, c, rest) ← account_parts has_code has_storage stack
  ok (
      leaf_node key (account (unwrap_or_default nonce) (unwrap_or_default balance) storage c)
      ∷ rest)
step (branch mask) stack = do
  (children, rest) ← branch_loop 64 mask (λ j. absent) stack
  ok (branch_node children ∷ rest)
step (smt_leaf l) stack = err unexpected_smt_leaf
step new_trie stack = ok stack

abbrev pub to_execution : Node → ExecuteResult Execution
to_execution (leaf_node key v) = ok (leaf_execution key v)
to_execution (extension_node key child) = ok (extension_execution key child)
to_execution (branch_node children) = ok (branch_execution children)
to_execution empty_node = ok empty_execution
to_execution n = err expected_terminal

-- The stack that is left is empty where this succeeds.
unfoldable pub finish_stack : Stack → ExecuteResult Execution
finish_stack (n ∷ []) = to_execution n
finish_stack stack = err (expected_single_element (length stack))

-- The loop over the instructions, with the witnesses so far.
unfoldable pub execute_loop :
    List Instruction → List Execution → Stack → ExecuteResult (List Execution)
execute_loop [] witnesses stack = do w ← finish_stack stack; ok (witnesses ++ (w ∷ []))
execute_loop (new_trie ∷ is) witnesses stack = do
  w ← finish_stack stack
  execute_loop is (witnesses ++ (w ∷ [])) []
execute_loop (i ∷ is) witnesses stack = do next ← step i stack; execute_loop is witnesses next

unfoldable pub execute : List Instruction → ExecuteResult (List Execution)
execute instructions = execute_loop instructions [] []
