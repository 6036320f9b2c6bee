-- ===== src/Mpt/Node.antt =====
-- The data of a trie: `Node` of mpt_trie/src/partial_trie.rs, `TrieNodeType` of
-- mpt_trie/src/utils.rs, and `ValOrHash`, `TrieOpError` and `TrieOpResult` of
-- mpt_trie/src/trie_ops.rs. A wrapped node is an immutable shared pointer, so it is the node
-- itself; the array of 16 children is a function of the index, read below 16 only. A hash is
-- the number that its 32 bytes write.
use zk_evm.Prelude.{
  ℕ, Bool, true, false, Option, none, some, List, [], ◌∷◌, ltb, ◌==◌, if◌then◌else◌,
}
use zk_evm.Mpt.Nibbles.{Nibbles}

abbrev pub H256 : Type 0
H256 = ℕ

abbrev pub Bytes : Type 0
Bytes = List ℕ

pub data Node : Type 0 where
  empty : Node
  hash : H256 → Node
  branch : (ℕ → Node) → Bytes → Node
  extension : Nibbles → Node → Node
  leaf : Nibbles → Bytes → Node

pub data TrieNodeType : Type 0 where
  empty_type hash_type branch_type extension_type leaf_type : TrieNodeType

unfoldable pub node_type : Node → TrieNodeType
node_type empty = empty_type
node_type (hash h) = hash_type
node_type (branch children value) = branch_type
node_type (extension nibbles child) = extension_type
node_type (leaf nibbles value) = leaf_type

pub data ValOrHash : Type 0 where
  val : Bytes → ValOrHash
  hash_val : H256 → ValOrHash

pub data OnOrphanedHashNode : Type 0 where
  collapse_to_extension reject : OnOrphanedHashNode

pub data TrieOpError : Type 0 where
  hash_node_insert_error : H256 → TrieOpError
  hash_node_delete_error : H256 → TrieOpError
  hash_node_ext_error : TrieNodeType → TrieOpError
  extension_collapsed_into_hash_error : Nibbles → H256 → TrieOpError
  existing_hash_node_error : H256 → TrieOpError

-- `panic` is a panic of the source.
pub data TrieOpResult {ℓ} (A : Type ℓ) : Type ℓ where
  ok : A → TrieOpResult A
  err : TrieOpError → TrieOpResult A
  panic : TrieOpResult A

infixl 5 ◌>>=◌ ◌>>◌
abbrev pub ◌>>=◌ {ℓ κ} :
    {A : Type ℓ} {B : Type κ} → TrieOpResult A → (A → TrieOpResult B) → TrieOpResult B
ok a >>= f = f a
err e >>= f = err e
panic >>= f = panic

abbrev pub ◌>>◌ {ℓ} : {B : Type ℓ} → TrieOpResult (Unit {0}) → TrieOpResult B → TrieOpResult B
m >> k = m >>= λ _. k

-- A call that may panic.
abbrev pub call {ℓ} : {A : Type ℓ} → Option A → TrieOpResult A
call none = panic
call (some a) = ok a

-- The bounds check of `children[i]`.
abbrev pub in_array : ℕ → TrieOpResult (Unit {0})
in_array i = if ltb i 16 then ok tt else panic

-- `children[i] = node` on a copy of the array.
abbrev pub set_child : (ℕ → Node) → ℕ → Node → ℕ → Node
set_child children i node j = if j == i then node else children j

abbrev pub new_branch_child_arr : ℕ → Node
new_branch_child_arr i = empty

abbrev pub is_empty_bytes : Bytes → Bool
is_empty_bytes [] = true
is_empty_bytes (b ∷ bs) = false

abbrev pub node_is_empty : Node → Bool
node_is_empty empty = true
node_is_empty (hash h) = false
node_is_empty (branch children value) = false
node_is_empty (extension n child) = false
node_is_empty (leaf n value) = false
