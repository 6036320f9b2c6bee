-- ===== src/Mpt/Hashing.antt =====
-- mpt_trie/src/trie_hashing.rs. RLP and keccak are other crates': `rlp_list` writes a list of items,
-- each the bytes of a string or an item that is written already, and `keccak` is a hash of bytes.
use zk_evm.Prelude.{
  ℕ, zero, suc, ◌+◌, true, false, Option, some, ◌>>=◌, List, [], ◌∷◌, ◌++◌, length, leb,
  if◌then◌else◌,
}
use zk_evm.Mpt.Node.{Bytes, H256, Node, empty, hash, branch, extension, leaf, is_empty_bytes}
use zk_evm.Mpt.Conversions.{to_hex_prefix_encoding}

pub data EncodedNode : Type 0 where
  raw : Bytes → EncodedNode
  hashed : H256 → EncodedNode

pub data RlpItem : Type 0 where
  string : Bytes → RlpItem
  digest : H256 → RlpItem
  written : Bytes → RlpItem

abbrev pub append_to_stream : EncodedNode → RlpItem
append_to_stream (raw b) = written b
append_to_stream (hashed h) = digest h

-- The items of the children from `i` on.
abbrev pub child_items : ℕ → ℕ → (ℕ → Option EncodedNode) → Option (List RlpItem)
child_items zero i f = some []
child_items (suc left) i f = do
  e ← f i
  es ← child_items left (i + 1) f
  some (append_to_stream e ∷ es)

module _ (rlp_list : List RlpItem → Bytes) (null_rlp : Bytes) (keccak : Bytes → H256) where
  abbrev pub hash_bytes_if_large_enough : Bytes → EncodedNode
  hash_bytes_if_large_enough bytes =
      if leb 32 (length bytes) then hashed (keccak bytes) else raw bytes

  -- `none` is a panic of the encoding of a key.
  unfoldable pub rlp_encode_and_hash_node : Node → Option EncodedNode
  rlp_encode_and_hash_node empty = some (raw null_rlp)
  rlp_encode_and_hash_node (hash h) = some (hashed h)
  rlp_encode_and_hash_node (branch children value) = do
    items ← child_items 16 0 (λ i. rlp_encode_and_hash_node (children i))
    let last = if is_empty_bytes value then string [] else string value
    some (hash_bytes_if_large_enough (rlp_list (items ++ (last ∷ []))))
  rlp_encode_and_hash_node (extension nibbles child) = do
    key ← to_hex_prefix_encoding nibbles false
    e ← rlp_encode_and_hash_node child
    some (hash_bytes_if_large_enough (rlp_list (string key ∷ (append_to_stream e ∷ []))))
  rlp_encode_and_hash_node (leaf nibbles value) = do
    key ← to_hex_prefix_encoding nibbles true
    some (hash_bytes_if_large_enough (rlp_list (string key ∷ (string value ∷ []))))

  abbrev root_hash : EncodedNode → H256
  root_hash (raw b) = keccak b
  root_hash (hashed h) = h

  unfoldable pub hash_trie : Node → Option H256
  hash_trie node = do e ← rlp_encode_and_hash_node node; some (root_hash e)
